-- ===== src/Regex/Skip.antt =====
-- `sub` and `findall` behind a match: they go on with what the match leaves.
use auto_lfs_builder.Prelude.{
  ℕ, zero, suc, ◌-◌, ◌≡◌, refl, sym, ap, subst, [], ◌∷◌, ◌++◌, Bool, true, false, none, some,
  length, length-append, drop, drop-append, arith, Bool-cases, inl, inr,
}
use auto_lfs_builder.Text.{Text, lstrip_by}
use auto_lfs_builder.Regex.{
  at_start, one, many, Pattern, Match, match_at, grow_group, capture, find_all_from, sub_from,
}

pub sub_from-drop :
    (r : Pattern) (by : Text) (k : ℕ) (s : Text)
    → sub_from r by false k s ≡ sub_from r by false 0 (drop k s)
unfolding sub_from
sub_from-drop r by zero s = refl
sub_from-drop r by (suc k) [] = refl
sub_from-drop r by (suc k) (c ∷ s) = sub_from-drop r by k s

pub find_all_from-drop :
    (r : Pattern) (k : ℕ) (s : Text)
    → find_all_from r false k s ≡ find_all_from r false 0 (drop k s)
unfolding find_all_from
find_all_from-drop r zero s = refl
find_all_from-drop r (suc k) [] = refl
find_all_from-drop r (suc k) (c ∷ s) = find_all_from-drop r k s

-- Passing over all but the last characters.
pub drop_to_suffix :
    (used rest : Text) → drop (length (used ++ rest) - length rest) (used ++ rest) ≡ rest
drop_to_suffix used rest =
    let e : length (used ++ rest) - length rest ≡ length used =
      omega (arith, length-append {0} used rest) in
    rw e (drop-append used rest)

pub drop_used : (s used rest : Text) → s ≡ used ++ rest → drop (length s - length rest) s ≡ rest
drop_used s used rest e =
    subst (λ (t : Text). drop (length t - length rest) t ≡ rest) (sym e) (drop_to_suffix used rest)

-- A pattern that begins with `^` changes nothing behind the start.
pub sub_from-at_start : (r : Pattern) (by s : Text) → sub_from (at_start ∷ r) by false 0 s ≡ s
unfolding sub_from match_at
sub_from-at_start r by [] = refl
sub_from-at_start r by (c ∷ s) = ap (λ t. c ∷ t) (sub_from-at_start r by s)

-- The characters that `lstrip` drops.
pub lstrip_by_suffix : (p : ℕ → Bool) (s : Text) → (used : Text) × (s ≡ used ++ lstrip_by p s)
unfolding lstrip_by
lstrip_by_suffix p [] = ([], refl)
lstrip_by_suffix p (c ∷ s) = elim (Bool-cases (p c)) [
  | inl h ↦ let (used, e) = lstrip_by_suffix p s in (c ∷ used, rw h (ap (λ t. c ∷ t) e))
  | inr h ↦ ([], rw h)
]

pub drop-lstrip_by :
    (p : ℕ → Bool) (s : Text) → drop (length s - length (lstrip_by p s)) s ≡ lstrip_by p s
drop-lstrip_by p s =
    let (used, e) = lstrip_by_suffix p s in
    subst (λ (t : Text). drop (length t - length (lstrip_by p s)) t ≡ lstrip_by p s) (sym e)
      (drop_to_suffix used (lstrip_by p s))

-- A greedy repetition at the end of a pattern is `lstrip`.
pub match_at-many :
    (p : ℕ → Bool) (first : Bool) (s : Text)
    → match_at (many p ∷ []) first s ≡ some (record { group = []; rest = lstrip_by p s })
unfolding match_at lstrip_by
match_at-many p first [] = refl
match_at-many p first (c ∷ s) = elim (Bool-cases (p c)) [
  | inl h ↦ rw (h, match_at-many p false s)
  | inr h ↦ rw h
]

module _ (r : Pattern) (first : Bool) (c : ℕ) (s : Text) where
  pub sub_from-match :
      (by : Text) (m : Match)
      → match_at r first (c ∷ s) ≡ some m
      → sub_from r by first 0 (c ∷ s)
        ≡ by ++ sub_from r by false 0 (drop (length s - length m.rest) s)
  unfolding sub_from
  sub_from-match by m e =
      rw (e, sub_from) (ap (λ t. by ++ t) (sub_from-drop r by (length s - length m.rest) s))

  pub sub_from-skip :
      (by : Text)
      → match_at r first (c ∷ s) ≡ none
      → sub_from r by first 0 (c ∷ s) ≡ c ∷ sub_from r by false 0 s
  unfolding sub_from
  sub_from-skip by e = rw (e, sub_from)

  pub find_all_from-match :
      (m : Match)
      → match_at r first (c ∷ s) ≡ some m
      → find_all_from r first 0 (c ∷ s)
        ≡ m.group ∷ find_all_from r false 0 (drop (length s - length m.rest) s)
  unfolding find_all_from
  find_all_from-match m e =
      rw (e, find_all_from)
        (ap (λ t. m.group ∷ t) (find_all_from-drop r (length s - length m.rest) s))

  pub find_all_from-skip :
      match_at r first (c ∷ s) ≡ none → find_all_from r first 0 (c ∷ s) ≡ find_all_from r false 0 s
  unfolding find_all_from
  find_all_from-skip e = rw (e, find_all_from)

-- A captured group grows where the rest of the pattern does not fit yet.
pub match_at-capture :
    (p : ℕ → Bool) (r : Pattern) (first : Bool) (c : ℕ) (s : Text)
    → match_at r first (c ∷ s) ≡ none
    → p c ≡ true
    → match_at (capture p ∷ r) first (c ∷ s) ≡ grow_group c (match_at (capture p ∷ r) false s)
unfolding match_at
match_at-capture p r first c s e h = rw (e, match_at) (rw h)

pub match_at-one_none :
    (p : ℕ → Bool) (r : Pattern) (first : Bool) (c : ℕ) (s : Text)
    → p c ≡ false
    → match_at (one p ∷ r) first (c ∷ s) ≡ none
unfolding match_at
match_at-one_none p r first c s h = rw h

pub match_at-one_some :
    (p : ℕ → Bool) (r : Pattern) (first : Bool) (c : ℕ) (s : Text)
    → p c ≡ true
    → match_at (one p ∷ r) first (c ∷ s) ≡ match_at r false s
unfolding match_at
match_at-one_some p r first c s h = rw h

pub match_at-many_stop :
    (p : ℕ → Bool) (r : Pattern) (first : Bool) (c : ℕ) (s : Text)
    → p c ≡ false
    → match_at (many p ∷ r) first (c ∷ s) ≡ match_at r first (c ∷ s)
unfolding match_at
match_at-many_stop p r first c s h = rw h

pub match_at-nil :
    (first : Bool) (s : Text) → match_at [] first s ≡ some (record { group = []; rest = s })
unfolding match_at
match_at-nil first s = refl
