-- ===== src/Changelog/Blank.antt =====
-- What gen-changelog.py does when there is no change.
use auto_lfs_builder.Prelude.{ℕ, ◌≡◌, refl, ap, List, [], ◌∷◌, All, Bool, true, Option, some, arith}
use auto_lfs_builder.Text.{Text, is_space, rstrip_by, split_on}
use auto_lfs_builder.Changelog.Entity.{index_error, raise}
use auto_lfs_builder.Changelog.Packages.{TextSet, lines_of, entities}
use auto_lfs_builder.Changelog.Report.{main}

rstrip_by-blank : (p : ℕ → Bool) (s : Text) → All (λ c. p c ≡ true) s → rstrip_by p s ≡ []
unfolding rstrip_by
rstrip_by-blank p [] h = refl
rstrip_by-blank p (c ∷ s) h = ground (arith, rstrip_by-blank p s)

entities-blank :
    (stdout : Text)
    → All (λ c. is_space c ≡ true) stdout
    → entities (lines_of stdout) [] ≡ raise index_error
unfolding lines_of entities
entities-blank stdout h = ap (λ s. entities (split_on 0xa s) []) (rstrip_by-blank is_space stdout h)

-- If `git diff` prints nothing but white space, as it does when the file is unchanged, the program
-- prints nothing and fails with an `IndexError`, whatever the tracker answers.
pub main_blank :
    (order : TextSet → List Text) (fuel : ℕ) (name : Option Text) (stdout : Text) (tsv : List Text)
    → All (λ c. is_space c ≡ true) stdout
    → main order fuel name stdout tsv ≡ record { printed = []; failure = some index_error }
unfolding main
main_blank order fuel name stdout tsv h = ground (arith, entities-blank stdout h)
