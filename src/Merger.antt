-- ===== src/Merger.antt =====
-- src/parsers/documentation_merger.py
pub mod Laws
pub mod Samples
use auto_lfs_builder.Prelude.{
  List, [], ◌∷◌, ◌++◌, Bool, true, false, not, Option, none, some, if◌then◌else◌,
}
use auto_lfs_builder.Text.{Text, codes, is_nil, strip, join}
use auto_lfs_builder.Outside.{FilePath, Files}

-- What is done to the world, in order: a line on either stream, and a `git pull` of a repository.
pub data Event : Type 0 where
  out err : Text → Event
  pull : FilePath → Event

-- `subprocess.run([...], check=True)`: the standard output, or the standard error of a failure.
pub data Pulled : Type 0 where
  pulled : (stdout : Text) → Pulled
  failed : (stderr : Text) → Pulled

-- The exceptions: `RuntimeError` of a failed update, and that of `read_text`.
pub data Exception : Type 0 where
  failed_update : FilePath → Exception
  unreadable : Exception

pub data Result {ℓ} (A : Type ℓ) : Type ℓ where
  return : A → Result A
  raise : Exception → Result A

-- A function that leaves events behind and may raise.
abbrev pub Action {ℓ} : Type ℓ → Type ℓ
Action A = List Event × Result A

abbrev pub continue {ℓ κ} :
    {A : Type ℓ} {B : Type κ} → List Event → Result A → (A → Action B) → Action B
continue before (return a) f = let (after, r) = f a in (before ++ after, r)
continue before (raise e) f = (before, raise e)

infixl 5 ◌>>=◌ ◌>>◌
abbrev pub ◌>>=◌ {ℓ κ} : {A : Type ℓ} {B : Type κ} → Action A → (A → Action B) → Action B
m >>= f = let (before, r) = m in continue before r f

abbrev pub ◌>>◌ {ℓ} : {B : Type ℓ} → Action (Unit {0}) → Action B → Action B
m >> k = m >>= λ _. k

abbrev pub emit : Event → Action (Unit {0})
emit e = (e ∷ [], return tt)

-- The loop of `merge_sources`; `none` is the exception of `read_text`.
unfoldable pub read_sources : Files → List Text → List FilePath → Option (List Text)
read_sources files contents [] = some contents
read_sources files contents (path ∷ sources) =
    let skipped = read_sources files contents sources in
    elim (files.exists path) [
      | false ↦ skipped
      | true ↦ elim (files.read_text path) [
        | none ↦ none
        | some text ↦ read_sources files (contents ++ text ∷ []) sources
      ]
    ]

unfoldable pub merge_sources : Files → List FilePath → Option Text
unfolding read_sources join
merge_sources files sources = elim (read_sources files [] sources) [
  | none ↦ none
  | some contents ↦ some (join (codes "\n") contents)
]

-- `git`, as the result of a pull for each repository; `docs` is the parent of the repositories.
module _ (files : Files) (git : FilePath → Pulled) (docs : FilePath) where
  -- `docs_root / name`
  unfoldable pub repository : Text → FilePath
  repository name = docs ++ (codes "/" ++ name)

  abbrev report_pull : FilePath → Text → Pulled → Action (Unit {0})
  report_pull repo name (pulled stdout) =
      if is_nil stdout then ([], return tt) else emit (out (strip stdout))
  report_pull repo name (failed stderr) = do
    emit (
        err (
          codes "Error updating "
          ++ (name
              ++ (codes ": "
                  ++ (if is_nil stderr then codes "git pull failed" else strip stderr)))))
    ([], raise (failed_update repo))

  -- `_run_git_pull(docs_root / name)`
  unfoldable pub run_git_pull : Text → Action (Unit {0})
  unfolding repository
  run_git_pull name =
      let repo = repository name in
      if not (files.exists (repo ++ codes "/.git"))
      then emit (err (repo ++ codes " is not a git repository"))
      else (do emit (pull repo); report_pull repo name (git repo))

  unfoldable pub update_each : List Text → Action (Unit {0})
  unfolding run_git_pull
  update_each [] = ([], return tt)
  update_each (name ∷ names) = do run_git_pull name; update_each names

  unfoldable pub update_documentation : Action (Unit {0})
  unfolding update_each
  update_documentation = update_each (codes "lfs-git" ∷ codes "blfs-git" ∷ codes "jhalfs" ∷ [])

  abbrev print_merged : Option Text → Action (Unit {0})
  print_merged none = ([], raise unreadable)
  print_merged (some merged) = emit (out merged)

  -- `_cli`, over the parsed arguments.
  unfoldable pub cli : (update_docs : Bool) → List FilePath → Action (Unit {0})
  unfolding update_documentation merge_sources
  cli update_docs sources = do
    if update_docs then update_documentation else ([], return tt)
    if is_nil sources then ([], return tt) else print_merged (merge_sources files sources)
