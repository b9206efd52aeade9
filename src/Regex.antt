-- ===== src/Regex.antt =====
-- Matching as `re` does it, for the patterns of the source: sequences of single characters,
-- repeated characters and one captured lazy group. The search backtracks in the order of `re`:
-- a greedy repetition tries the longest run first, a lazy one the shortest.
pub mod Spelling
pub mod Places
pub mod Skip
pub mod Laziness
use auto_lfs_builder.Prelude.{
  ℕ, zero, suc, ◌+◌, ◌-◌, List, [], ◌∷◌, ◌++◌, map, Bool, true, false, not, Option, none, some,
  length, nat_eq, ◌==◌, if◌then◌else◌,
}
use auto_lfs_builder.Text.{Text, codes, is_space, lower_char}

pub data Item : Type 0 where
  -- `^`
  at_start : Item
  -- one character of a class
  one : (ℕ → Bool) → Item
  -- `[…]*`
  many : (ℕ → Bool) → Item
  -- `[…]*?`
  lazily : (ℕ → Bool) → Item
  -- `([…]*?)`
  capture : (ℕ → Bool) → Item

abbrev pub Pattern : Type 0
Pattern = List Item

-- The captured group, empty where the pattern has none, and the text behind the match.
pub record Match : Type 0 where
  pub group : Text
  pub rest : Text

abbrev pub no_group : Option Match → Option Match
no_group none = none
no_group (some m) = some (record m { group = [] })

abbrev pub grow_group : ℕ → Option Match → Option Match
grow_group c none = none
grow_group c (some m) = some (record m { group = c ∷ m.group })

-- `pattern.match`; the flag says whether the text is at its start.
unfoldable pub match_at : Pattern → Bool → Text → Option Match
match_at [] first s = some (record { group = []; rest = s })
match_at (at_start ∷ r) true s = match_at r true s
match_at (at_start ∷ r) false s = none
match_at (one p ∷ r) first [] = none
match_at (one p ∷ r) first (c ∷ s) = let next = match_at r false s in if p c then next else none
match_at (many p ∷ r) first [] = match_at r first []
match_at (many p ∷ r) first (c ∷ s) =
    let longer = match_at (many p ∷ r) false s in
    let shorter = match_at r first (c ∷ s) in
    elim (p c) [ true ↦ elim longer [ some m ↦ some m | none ↦ shorter ] | false ↦ shorter ]
match_at (lazily p ∷ r) first [] = match_at r first []
match_at (lazily p ∷ r) first (c ∷ s) =
    let longer = match_at (lazily p ∷ r) false s in
    let shorter = match_at r first (c ∷ s) in
    elim shorter [ some m ↦ some m | none ↦ elim (p c) [ true ↦ longer | false ↦ none ] ]
match_at (capture p ∷ r) first [] = no_group (match_at r first [])
match_at (capture p ∷ r) first (c ∷ s) =
    let longer = match_at (capture p ∷ r) false s in
    let shorter = match_at r first (c ∷ s) in
    elim shorter [
      | some m ↦ some (record m { group = [] })
      | none ↦ elim (p c) [ true ↦ grow_group c longer | false ↦ none ]
    ]

-- `pattern.search`: the first position with a match.
unfoldable pub search_from : Pattern → Bool → Text → Option Match
unfolding match_at
search_from r first [] = match_at r first []
search_from r first (c ∷ s) =
    let later = search_from r false s in
    elim (match_at r first (c ∷ s)) [ some m ↦ some m | none ↦ later ]

-- `pattern.findall`, for patterns with a group that match no empty text. The number counts the
-- characters of the last match that are still to be passed over.
unfoldable pub find_all_from : Pattern → Bool → ℕ → Text → List Text
unfolding match_at
find_all_from r first skip [] = []
find_all_from r first (suc skip) (c ∷ s) = find_all_from r false skip s
find_all_from r first zero (c ∷ s) = elim (match_at r first (c ∷ s)) [
  | some m ↦ m.group ∷ find_all_from r false (length s - length m.rest) s
  | none ↦ find_all_from r false 0 s
]

unfoldable pub find_all : Pattern → Text → List Text
unfolding find_all_from
find_all r s = find_all_from r true 0 s

-- `pattern.sub(by, s)`, for patterns that match no empty text.
unfoldable pub sub_from : Pattern → Text → Bool → ℕ → Text → Text
unfolding match_at
sub_from r by first skip [] = []
sub_from r by first (suc skip) (c ∷ s) = sub_from r by false skip s
sub_from r by first zero (c ∷ s) = elim (match_at r first (c ∷ s)) [
  | some m ↦ by ++ sub_from r by false (length s - length m.rest) s
  | none ↦ c ∷ sub_from r by false 0 s
]

unfoldable pub sub : Pattern → Text → Text → Text
unfolding sub_from
sub r by s = sub_from r by true 0 s

-- `.` under `DOTALL`
abbrev pub any_char : ℕ → Bool
any_char c = true

-- `[^…]` for one character.
abbrev pub none_of : ℕ → ℕ → Bool
none_of x c = not (c == x)

-- One character under `IGNORECASE`.
abbrev pub same_letter : ℕ → ℕ → Bool
same_letter x c = lower_char c == lower_char x

-- A literal text under `IGNORECASE`.
unfoldable pub letters : Text → Pattern
unfolding lower_char
letters s = map (λ x. one (same_letter x)) s

-- A literal text.
unfoldable pub exactly : Text → Pattern
exactly s = map (λ x. one (λ c. c == x)) s

-- `[…]+`
abbrev pub some_of : (ℕ → Bool) → Pattern
some_of p = one p ∷ many p ∷ []
