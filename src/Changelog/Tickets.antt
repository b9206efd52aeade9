-- ===== src/Changelog/Tickets.antt =====
-- The tickets of the tracker: `ticket` and `security` of gen-changelog.py.
use auto_lfs_builder.Prelude.{
  zero, suc, List, [], ◌∷◌, take, Bool, none, some, nat_eq, list_eq, if◌then◌else◌, Dict, insert,
}
use auto_lfs_builder.Text.{Text, codes, lower, split_on, starts_with}
use auto_lfs_builder.Changelog.Entity.{find}
use auto_lfs_builder.Changelog.Packages.{TextSet, add_to}

pub record Tickets : Type 0 where
  pub ticket : Dict Text Text
  pub security : TextSet

-- `pkg[:pos]` where `pos = pkg.find(' ')` is above 0.
unfoldable pub first_word : Text → Text
unfolding find
first_word pkg = elim (find (codes " ") pkg) [
  | none ↦ pkg
  | some pos ↦ elim pos [ zero ↦ pkg | suc n ↦ take (suc n) pkg ]
]

unfoldable pub is_high : List Text → Bool
unfolding starts_with
is_high [] = Bool.false
is_high (priority ∷ rest) = starts_with (codes "high") priority

-- The body of the loop, for the fields of a line.
unfoldable pub note_fields : List Text → Tickets → Tickets
unfolding lower first_word is_high add_to insert
note_fields (tic ∷ summary ∷ rest) t =
    let pkg = first_word (lower summary) in
    record {
      ticket = insert pkg tic t.ticket;
      security = if is_high rest then add_to pkg t.security else t.security;
    }
note_fields _ t = t

unfoldable pub tickets : List Text → Tickets → Tickets
unfolding split_on note_fields
tickets [] t = t
tickets (line ∷ tsv) t = tickets tsv (note_fields (split_on b'\t' line) t)

abbrev pub hold_ticket : Dict Text Text
hold_ticket = (codes "vim", codes "4500") ∷ (codes "iana-etc", codes "5006") ∷ []
