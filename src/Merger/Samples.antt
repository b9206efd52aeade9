-- ===== src/Merger/Samples.antt =====
-- Three repositories, one of which is missing and one of which cannot be pulled.
use auto_lfs_builder.Prelude.{
  ◌≡◌, refl, true, false, none, some, [], ◌∷◌, list_beq, list_eq, nat_eq, ◌==◌, if◌then◌else◌,
}
use auto_lfs_builder.Text.{codes, strip}
use auto_lfs_builder.Outside.{FilePath, Files}
use auto_lfs_builder.Merger.{
  Pulled, pulled, failed, merge_sources, update_documentation, update_each, run_git_pull, cli, err,
  out, pull, raise, failed_update, return,
}
use auto_lfs_builder.Merger.Laws.{pulls, expected, outcome, update_documentation-expected}

abbrev files : Files
files = record {
  exists = λ path. if path == codes "docs/blfs-git/.git" then false else true;
  read_text = λ path. if path == codes "secret" then none else some path;
}

abbrev git : FilePath → Pulled
git path = if path == codes "docs/jhalfs" then failed [] else pulled (codes "Already up to date.")

cli-update : cli files git (codes "docs") true (codes "a" ∷ []) ≡ (
  pull (codes "docs/lfs-git")
      ∷ out (codes "Already up to date.")
      ∷ err (codes "docs/blfs-git is not a git repository")
      ∷ pull (codes "docs/jhalfs")
      ∷ err (codes "Error updating jhalfs: git pull failed")
      ∷ [],
  raise (failed_update (codes "docs/jhalfs")),
)
unfolding cli update_documentation update_each run_git_pull list_beq strip
cli-update = refl

cli-merge :
    cli files git (codes "docs") false (codes "a" ∷ codes "docs/blfs-git/.git" ∷ codes "b" ∷ [])
    ≡ (out (codes "a\nb") ∷ [], return tt)
unfolding cli merge_sources list_beq
cli-merge = refl

update_documentation-expected_example :
    (pulls (update_documentation files git (codes "docs")).0
      ≡ (expected files git
          (codes "docs")
          (codes "lfs-git" ∷ codes "blfs-git" ∷ codes "jhalfs" ∷ [])).0)
    × ((update_documentation files git (codes "docs")).1
        ≡ outcome files git (codes "docs") (
            (expected files git
              (codes "docs")
              (codes "lfs-git" ∷ codes "blfs-git" ∷ codes "jhalfs" ∷ [])).1))
update_documentation-expected_example = update_documentation-expected files git (codes "docs")
