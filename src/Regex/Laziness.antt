-- ===== src/Regex/Laziness.antt =====
-- A lazy group stops at the first place where what stands behind it in the pattern fits.
use auto_lfs_builder.Prelude.{
  ℕ, zero, suc, ◌-◌, ◌≡◌, ◌≢◌, refl, sym, ap, ◌∙◌, subst, on_if, [], ◌∷◌, ◌++◌, append_assoc, Bool,
  true, false, Option, none, some, length, All, Bool-cases, inl, inr, arith, nat_eq, nat_beq_iff,
}
use auto_lfs_builder.Text.{Text, lower, lower_char}
use auto_lfs_builder.Regex.{
  at_start, one, many, lazily, capture, Pattern, Match, match_at, find_all_from, letters,
  same_letter, no_group, grow_group,
}
use auto_lfs_builder.Regex.Spelling.{Sound, capture-Spells}
use auto_lfs_builder.Regex.Places.{match_at-Sound}

-- The text stands nowhere in the other.
abbrev pub Excludes : Text → Text → Type 0
Excludes w s = (a b : Text) → s ≢ a ++ (w ++ b)

lower_char_twice : (c : ℕ) → lower_char (lower_char c) ≡ lower_char c
unfolding lower_char
lower_char_twice c = ground arith

-- The letters of a text fit where it stands, in any case.
letters_fit :
    (w t b u : Text) (first : Bool) → lower t ≡ w ++ b → match_at (letters w) first (t ++ u) ≢ none
unfolding match_at letters lower
letters_fit [] t b u first h e = absurd (ground (arith, e))
letters_fit (x ∷ w) [] b u first h e = absurd (ground (arith, h))
letters_fit (x ∷ w) (c ∷ t) b u first h e =
    let head : lower_char c ≡ x = ground (arith, h) in
    let behind : lower t ≡ w ++ b = ground (arith, h) in
    let same : same_letter x c ≡ true =
      (nat_beq_iff (lower_char c) (lower_char x)).1
        (sym (lower_char_twice c) ∙ ap lower_char head) in
    letters_fit w t b u false behind (ground (arith, e, same))

-- The group of a match, if there is one.
abbrev pub OnGroup : (Text → Type 0) → Option Match → Type 0
OnGroup P none = Unit
OnGroup P (some m) = P m.group

-- A pattern that ends with a lazy group and the letters of a text.
abbrev pub EndsLazily : Text → Pattern → Type 0
EndsLazily w [] = ⊥
EndsLazily w (capture p ∷ r) = r ≡ letters w
EndsLazily w (at_start ∷ r) = EndsLazily w r
EndsLazily w (one p ∷ r) = EndsLazily w r
EndsLazily w (many p ∷ r) = EndsLazily w r
EndsLazily w (lazily p ∷ r) = EndsLazily w r

module _ (x : ℕ) (w : Text) where
  abbrev pub IsShort : Option Match → Type 0
  IsShort o = OnGroup (λ g. Excludes (x ∷ w) (lower g)) o

  Excludes-nil : Excludes (x ∷ w) []
  Excludes-nil [] b e = cc
  Excludes-nil (c ∷ a) b e = cc

  no_group-IsShort : (o : Option Match) → IsShort (no_group o)
  unfolding lower
  no_group-IsShort none = tt
  no_group-IsShort (some m) = Excludes-nil

  -- A step of the group is made only where the letters do not fit.
  capture_step-IsShort :
      (p : ℕ → Bool) (c : ℕ) (s : Text) (first : Bool) (longer : Option Match)
      → match_at (letters (x ∷ w)) first (c ∷ s) ≡ none
      → Sound (capture p ∷ letters (x ∷ w)) s longer
      → IsShort longer
      → IsShort (grow_group c longer)
  unfolding lower
  capture_step-IsShort p c s first none miss sound short = tt
  capture_step-IsShort p c s first (some m) miss sound short = grown
    where
      grown : Excludes (x ∷ w) (lower (c ∷ m.group))
      grown [] b e =
          let (v, g', e1, rest) = capture-Spells p (letters (x ∷ w)) sound.spelled in
          letters_fit (x ∷ w) (c ∷ m.group) b (v ++ m.rest) first e (
            subst (λ t. match_at (letters (x ∷ w)) first (c ∷ t) ≡ none)
              (sound.split ∙ ap (λ t. t ++ m.rest) e1 ∙ append_assoc m.group v m.rest) miss)
      grown (y ∷ a) b e = short a b (ground (arith, e))

  or-IsShort :
      (l r : Option Match) → IsShort l → IsShort r → IsShort (elim l [ some m ↦ some m | none ↦ r ])
  or-IsShort (some m) r h k = h
  or-IsShort none r h k = k

  capture_cases-IsShort :
      (fits : Bool) (c : ℕ) (longer shorter : Option Match)
      → (shorter ≡ none → IsShort (grow_group c longer))
      → IsShort (elim shorter [
        | some m ↦ some (record m { group = [] })
        | none ↦ elim fits [ true ↦ grow_group c longer | false ↦ none ]
      ])
  unfolding lower
  capture_cases-IsShort fits c longer (some m) h = Excludes-nil
  capture_cases-IsShort true c longer none h = h refl
  capture_cases-IsShort false c longer none h = tt

  capture-IsShort :
      (p : ℕ → Bool) (first : Bool) (s : Text)
      → IsShort (match_at (capture p ∷ letters (x ∷ w)) first s)
  unfolding match_at
  capture-IsShort p first [] = no_group-IsShort (match_at (letters (x ∷ w)) first [])
  capture-IsShort p first (c ∷ s) =
      capture_cases-IsShort (p c) c (match_at (capture p ∷ letters (x ∷ w)) false s)
        (match_at (letters (x ∷ w)) first (c ∷ s))
        (λ miss.
          capture_step-IsShort p c s first (match_at (capture p ∷ letters (x ∷ w)) false s) miss
            (match_at-Sound (capture p ∷ letters (x ∷ w)) false s) (capture-IsShort p false s))

  pub match_at-IsShort :
      (r : Pattern) (first : Bool) (s : Text) → EndsLazily (x ∷ w) r → IsShort (match_at r first s)
  unfolding match_at
  match_at-IsShort [] first s h = absurd h
  match_at-IsShort (capture p ∷ r) first s h =
      subst (λ z. IsShort (match_at (capture p ∷ z) first s)) (sym h) (capture-IsShort p first s)
  match_at-IsShort (at_start ∷ r) true s h = match_at-IsShort r true s h
  match_at-IsShort (at_start ∷ r) false s h = tt
  match_at-IsShort (one p ∷ r) first [] h = tt
  match_at-IsShort (one p ∷ r) first (c ∷ s) h =
      on_if IsShort (p c) (λ _. match_at-IsShort r false s h) (λ _. tt)
  match_at-IsShort (many p ∷ r) first [] h = match_at-IsShort r first [] h
  match_at-IsShort (many p ∷ r) first (c ∷ s) h = elim (Bool-cases (p c)) [
    | inl q ↦ rw q (
        or-IsShort (match_at (many p ∷ r) false s) (match_at r first (c ∷ s))
          (match_at-IsShort (many p ∷ r) false s h) (match_at-IsShort r first (c ∷ s) h))
    | inr q ↦ rw q (match_at-IsShort r first (c ∷ s) h)
  ]
  match_at-IsShort (lazily p ∷ r) first [] h = match_at-IsShort r first [] h
  match_at-IsShort (lazily p ∷ r) first (c ∷ s) h =
      or-IsShort (match_at r first (c ∷ s))
        (elim (p c) [ true ↦ match_at (lazily p ∷ r) false s | false ↦ none ])
        (match_at-IsShort r first (c ∷ s) h)
        (elim (Bool-cases (p c)) [
          | inl q ↦ rw q (match_at-IsShort (lazily p ∷ r) false s h)
          | inr q ↦ rw q tt
        ])

module _ (P : Text → Type 0) (r : Pattern)
    (holds : (first : Bool) (s : Text) → OnGroup P (match_at r first s)) where
  pub find_all_from-All :
      (first : Bool) (skip : ℕ) (s : Text) → All P (find_all_from r first skip s)
  unfolding find_all_from
  find_all_from-All first skip [] = tt
  find_all_from-All first (suc skip) (c ∷ s) = find_all_from-All false skip s
  find_all_from-All first zero (c ∷ s) =
      by_match (match_at r first (c ∷ s)) (holds first (c ∷ s)) (λ k. find_all_from-All false k s)
    where
      by_match :
          (o : Option Match)
          → OnGroup P o
          → ((k : ℕ) → All P (find_all_from r false k s))
          → All P (elim o [
            | some m ↦ m.group ∷ find_all_from r false (length s - length m.rest) s
            | none ↦ find_all_from r false 0 s
          ])
      by_match none h rest = rest 0
      by_match (some m) h rest = (h, rest (length s - length m.rest))
