-- ===== src/Text/Lines.antt =====
-- Texts that are joined from lines: `splitlines` gives the lines back, and `strip` leaves the text
-- alone where its first and last line are trimmed and not empty.
use auto_lfs_builder.Prelude.{
  ℕ, ◌≤◌, ◌≡◌, ◌≢◌, refl, ap, ◌∙◌, Bool, false, List, [], ◌∷◌, ◌++◌, Bool-cases, inl, inr, arith,
  All, length, nat_eq, list_eq,
}
use auto_lfs_builder.Text.{
  Text, is_space, cons_head, join, splitlines, is_line_break, strip, lstrip_by, rstrip_by,
}
use auto_lfs_builder.Text.Trim.{IsTrimmed, IsTrimmed-rstrip}
use auto_lfs_builder.Text.Parts.{IsLine}

-- The last line, if there is one, is not empty.
abbrev pub EndsFilled : List Text → Type 0
EndsFilled [] = Unit
EndsFilled (l ∷ []) = l ≢ []
EndsFilled (l ∷ m ∷ ls) = EndsFilled (m ∷ ls)

splitlines_whole : (l : Text) → IsLine l → l ≢ [] → splitlines l ≡ l ∷ []
unfolding splitlines is_line_break cons_head
splitlines_whole [] h ne = absurd (ne refl)
splitlines_whole (c ∷ []) h ne = ground arith
splitlines_whole (c ∷ d ∷ l) h ne = ground (arith, splitlines_whole (d ∷ l) h.1 (λ e. cc))

splitlines_front : (l rest : Text) → IsLine l → splitlines (l ++ 0xa ∷ rest) ≡ l ∷ splitlines rest
unfolding splitlines is_line_break cons_head
splitlines_front [] rest h = refl
splitlines_front (c ∷ l) rest h = ground (arith, splitlines_front l rest)

pub splitlines-join :
    (ls : List Text) → All IsLine ls → EndsFilled ls → splitlines (join (0xa ∷ []) ls) ≡ ls
unfolding join
splitlines-join [] h f = unfold splitlines in refl
splitlines-join (l ∷ []) h f = splitlines_whole l h.0 f
splitlines-join (l ∷ m ∷ ls) h f =
    splitlines_front l (join (0xa ∷ []) (m ∷ ls)) h.0
    ∙ ap (λ t. l ∷ t) (splitlines-join (m ∷ ls) h.1 f)

module _ (p : ℕ → Bool) where
  length-lstrip_by-le : (s : Text) → length (lstrip_by p s) ≤ length s
  unfolding lstrip_by
  length-lstrip_by-le [] = omega arith
  length-lstrip_by-le (c ∷ s) = ground (arith, length-lstrip_by-le s)

  length-rstrip_by-le : (s : Text) → length (rstrip_by p s) ≤ length s
  unfolding rstrip_by
  length-rstrip_by-le [] = omega arith
  length-rstrip_by-le (c ∷ s) = ground (arith, length-rstrip_by-le s)

  pub rstrip_by-append : (s t : Text) → rstrip_by p t ≡ t → t ≢ [] → rstrip_by p (s ++ t) ≡ s ++ t
  unfolding rstrip_by
  rstrip_by-append [] t h ne = h
  rstrip_by-append (c ∷ s) [] h ne = absurd (ne refl)
  rstrip_by-append (c ∷ []) (d ∷ t) h ne = rw h
  rstrip_by-append (c ∷ e ∷ s) (d ∷ t) h ne = rw (rstrip_by-append (e ∷ s) (d ∷ t) h ne)

-- A trimmed text begins with no white space.
pub IsTrimmed-head : (c : ℕ) (s : Text) → IsTrimmed (c ∷ s) → is_space c ≡ false
unfolding strip lstrip_by
IsTrimmed-head c s h = elim (Bool-cases (is_space c)) [
  | inr q ↦ q
  | inl q ↦ absurd (
      omega (
        arith,
        ap length (rw q at h),
        length-rstrip_by-le is_space (lstrip_by is_space s),
        length-lstrip_by-le is_space s,
      ))
]

join-ne-nil : (l : Text) (ls : List Text) → EndsFilled (l ∷ ls) → join (0xa ∷ []) (l ∷ ls) ≢ []
unfolding join
join-ne-nil l [] f = f
join-ne-nil [] (m ∷ ls) f = λ e. cc
join-ne-nil (c ∷ l) (m ∷ ls) f = λ e. cc

rstrip_by-join :
    (ls : List Text)
    → All IsTrimmed ls
    → EndsFilled ls
    → rstrip_by is_space (join (0xa ∷ []) ls) ≡ join (0xa ∷ []) ls
unfolding join
rstrip_by-join [] h f = unfold rstrip_by in refl
rstrip_by-join (l ∷ []) h f = IsTrimmed-rstrip l h.0
rstrip_by-join (l ∷ m ∷ ls) h f =
    rstrip_by-append is_space l (0xa ∷ join (0xa ∷ []) (m ∷ ls))
      (rstrip_by-append is_space (0xa ∷ []) (join (0xa ∷ []) (m ∷ ls))
        (rstrip_by-join (m ∷ ls) h.1 f) (join-ne-nil m ls f))
      (λ e. cc)

lstrip_by-join :
    (c : ℕ) (l : Text) (ls : List Text)
    → is_space c ≡ false
    → lstrip_by is_space (join (0xa ∷ []) ((c ∷ l) ∷ ls)) ≡ join (0xa ∷ []) ((c ∷ l) ∷ ls)
unfolding join lstrip_by
lstrip_by-join c l [] h = rw h
lstrip_by-join c l (m ∷ ls) h = rw h

pub join-IsTrimmed :
    (l : Text) (ls : List Text)
    → l ≢ []
    → All IsTrimmed (l ∷ ls)
    → EndsFilled (l ∷ ls)
    → IsTrimmed (join (0xa ∷ []) (l ∷ ls))
unfolding strip
join-IsTrimmed [] ls ne h f = absurd (ne refl)
join-IsTrimmed (c ∷ l) ls ne h f =
    ap (rstrip_by is_space) (lstrip_by-join c l ls (IsTrimmed-head c l h.0))
    ∙ rstrip_by-join ((c ∷ l) ∷ ls) h f
