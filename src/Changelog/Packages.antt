-- ===== src/Changelog/Packages.antt =====
-- The lines of the diff: the entities of the new file, and which packages are added, removed and
-- updated.
use auto_lfs_builder.Prelude.{
  ℕ, List, [], ◌∷◌, ◌++◌, ◌||◌, Option, none, some, nat_eq, list_eq, list_beq, ◌==◌, if◌then◌else◌,
  contains, Dict, insert,
}
use auto_lfs_builder.Text.{Text, codes, is_space, rstrip_by, split_on, ends_with}
use auto_lfs_builder.KernelConfig.Lines.{drop_end}
use auto_lfs_builder.Changelog.Entity.{Result, ok, raise, index_error, get_entity}

-- `stdout.rstrip().split("\n")`
unfoldable pub lines_of : Text → List Text
unfolding rstrip_by is_space split_on
lines_of stdout = split_on 0xa (rstrip_by is_space stdout)

-- A set of texts, as the list of its elements: each once, in the order in which they were added.
abbrev pub TextSet : Type 0
TextSet = List Text

unfoldable pub add_to : Text → TextSet → TextSet
unfolding contains list_beq
add_to x set = if contains x set then set else set ++ x ∷ []

-- `dict(i for i in ent if i)` of the entities of the lines that are not removed. An empty line has
-- no `i[0]`.
unfoldable pub entities : List Text → Dict Text Text → Result (Dict Text Text)
unfolding get_entity insert
entities [] ent = ok ent
entities ([] ∷ lines) ent = raise index_error
entities ((c ∷ line) ∷ lines) ent = entities lines (
    if c == b'-'
    then ent
    else elim (get_entity (c ∷ line)) [ none ↦ ent | some (key, value) ↦ insert key value ent ])

-- The package of a line that adds or removes a checksum.
unfoldable pub package_of : Text → Option Text
unfolding get_entity ends_with
package_of line = elim (get_entity line) [
  | none ↦ none
  | some (key, value) ↦ if ends_with (codes "-md5") key then some (drop_end 4 key) else none
]

-- The sets `add` and `rem`.
pub record Changes : Type 0 where
  pub add : TextSet
  pub rem : TextSet

-- The body of the loop, for the first character of a line and the line.
unfoldable pub note_line : ℕ → Text → Changes → Changes
unfolding package_of add_to
note_line c line s =
    if c == b'+' || c == b'-'
    then elim (package_of line) [
      | none ↦ s
      | some pkg ↦
          if c == b'+'
          then record s { add = add_to pkg s.add }
          else record s { rem = add_to pkg s.rem }
    ]
    else s

unfoldable pub changes : List Text → Changes → Result Changes
unfolding note_line
changes [] s = ok s
changes ([] ∷ lines) s = raise index_error
changes ((c ∷ line) ∷ lines) s = changes lines (note_line c (c ∷ line) s)

-- `s.intersection(t)`, and the elements that are not in `t`.
unfoldable pub intersection : TextSet → TextSet → TextSet
unfolding contains list_beq
intersection [] t = []
intersection (x ∷ s) t = let rest = intersection s t in if contains x t then x ∷ rest else rest

unfoldable pub difference : TextSet → TextSet → TextSet
unfolding contains list_beq
difference [] t = []
difference (x ∷ s) t = let rest = difference s t in if contains x t then rest else x ∷ rest

unfoldable pub symmetric_difference : TextSet → TextSet → TextSet
unfolding difference
symmetric_difference s t = difference s t ++ difference t s

-- The three sets as they are printed.
pub record Sorted : Type 0 where
  pub upd : TextSet
  pub add : TextSet
  pub rem : TextSet

unfoldable pub sort_changes : Changes → Sorted
unfolding intersection symmetric_difference
sort_changes s =
    let upd = intersection s.add s.rem in
    record { upd = upd; add = symmetric_difference s.add upd; rem = symmetric_difference s.rem upd }
