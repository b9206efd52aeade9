-- ===== src/Regex/Places.antt =====
-- A match that is found fits the text, for every pattern, and so do all that `findall` returns.
use auto_lfs_builder.Prelude.{
  ℕ, zero, suc, ◌-◌, ◌≡◌, refl, ap, List, [], ◌∷◌, ◌++◌, Bool, true, false, Option, none, some,
  length, All, Bool-cases, inl, inr,
}
use auto_lfs_builder.Text.{Text}
use auto_lfs_builder.Regex.{
  at_start, one, many, lazily, capture, Pattern, Match, match_at, find_all_from,
}
use auto_lfs_builder.Regex.Spelling.{
  Spells, end, Sound, many-Sound, many_stop-Sound, lazily-Sound, capture-Sound, one-Sound,
  start-Sound, lazily_stop-Sound, capture_stop-Sound,
}

pub match_at-Sound : (r : Pattern) (first : Bool) (s : Text) → Sound r s (match_at r first s)
unfolding match_at
match_at-Sound [] first s = record { used = []; split = refl; spelled = end }
match_at-Sound (at_start ∷ r) true s = start-Sound r s (match_at r true s) (match_at-Sound r true s)
match_at-Sound (at_start ∷ r) false s = tt
match_at-Sound (one p ∷ r) first [] = tt
match_at-Sound (one p ∷ r) first (c ∷ s) =
    one-Sound p r c s (match_at r false s) (match_at-Sound r false s)
match_at-Sound (many p ∷ r) first [] =
    many_stop-Sound p r [] (match_at r first []) (match_at-Sound r first [])
match_at-Sound (many p ∷ r) first (c ∷ s) = elim (Bool-cases (p c)) [
  | inl h ↦ rw h (
      many-Sound p r c s (match_at (many p ∷ r) false s) (match_at r first (c ∷ s)) h
        (match_at-Sound (many p ∷ r) false s) (match_at-Sound r first (c ∷ s)))
  | inr h ↦
      rw h (many_stop-Sound p r (c ∷ s) (match_at r first (c ∷ s)) (match_at-Sound r first (c ∷ s)))
]
match_at-Sound (lazily p ∷ r) first [] =
    lazily_stop-Sound p r [] (match_at r first []) (match_at-Sound r first [])
match_at-Sound (lazily p ∷ r) first (c ∷ s) =
    lazily-Sound p r c s (match_at (lazily p ∷ r) false s) (match_at r first (c ∷ s))
      (match_at-Sound (lazily p ∷ r) false s) (match_at-Sound r first (c ∷ s))
match_at-Sound (capture p ∷ r) first [] =
    capture_stop-Sound p r [] (match_at r first []) (match_at-Sound r first [])
match_at-Sound (capture p ∷ r) first (c ∷ s) =
    capture-Sound p r c s (match_at (capture p ∷ r) false s) (match_at r first (c ∷ s))
      (match_at-Sound (capture p ∷ r) false s) (match_at-Sound r first (c ∷ s))

-- A place in the text that the pattern spells, with that group.
pub record Found (r : Pattern) (s group : Text) : Type 0 where
  pub before : Text
  pub used : Text
  pub after : Text
  pub split : s ≡ before ++ (used ++ after)
  pub spelled : Spells r used group

pub Found-cons : (r : Pattern) (c : ℕ) {s g : Text} → Found r s g → Found r (c ∷ s) g
Found-cons r c f = record {
  before = c ∷ f.before;
  used = f.used;
  after = f.after;
  split = ap (λ t. c ∷ t) f.split;
  spelled = f.spelled;
}

All-Found-cons :
    (r : Pattern) (c : ℕ) (s : Text) (gs : List Text)
    → All (Found r s) gs
    → All (Found r (c ∷ s)) gs
All-Found-cons r c s [] h = tt
All-Found-cons r c s (g ∷ gs) h = (Found-cons r c h.0, All-Found-cons r c s gs h.1)

pub find_all_from-Found :
    (r : Pattern) (first : Bool) (skip : ℕ) (s : Text)
    → All (Found r s) (find_all_from r first skip s)
unfolding find_all_from
find_all_from-Found r first skip [] = tt
find_all_from-Found r first (suc skip) (c ∷ s) =
    All-Found-cons r c s _ (find_all_from-Found r false skip s)
find_all_from-Found r first zero (c ∷ s) =
    by_match (match_at r first (c ∷ s)) (match_at-Sound r first (c ∷ s))
      (λ k. find_all_from-Found r false k s)
  where
    by_match :
        (o : Option Match)
        → Sound r (c ∷ s) o
        → ((k : ℕ) → All (Found r s) (find_all_from r false k s))
        → All (Found r (c ∷ s)) (elim o [
          | some m ↦ m.group ∷ find_all_from r false (length s - length m.rest) s
          | none ↦ find_all_from r false 0 s
        ])
    by_match none h rest = All-Found-cons r c s (find_all_from r false 0 s) (rest 0)
    by_match (some m) h rest = (
      record { before = []; used = h.used; after = m.rest; split = h.split; spelled = h.spelled },
      All-Found-cons r c s (find_all_from r false (length s - length m.rest) s)
          (rest (length s - length m.rest)),
    )
