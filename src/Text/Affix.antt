-- ===== src/Text/Affix.antt =====
-- Laws of `startswith` and `endswith`.
use auto_lfs_builder.Prelude.{
  ◌≡◌, ◌≢◌, refl, sym, ap, true, false, [], ◌∷◌, ◌++◌, length, length-append, Bool-cases, inl, inr,
  arith, nat_eq, list_eq, list_beq_iff, ◌==◌, ◌<◌,
}
use auto_lfs_builder.Text.{Text, starts_with, ends_with}

-- The text begins, or ends, with the given one.
abbrev pub HasPrefix : Text → Text → Type 0
HasPrefix p s = (rest : Text) × (s ≡ p ++ rest)

abbrev pub HasSuffix : Text → Text → Type 0
HasSuffix p s = (front : Text) × (s ≡ front ++ p)

pub starts_with-HasPrefix : (p s : Text) → starts_with p s ≡ true → HasPrefix p s
unfolding starts_with
starts_with-HasPrefix [] s h = (s, refl)
starts_with-HasPrefix (a ∷ p) [] h = absurd (ground (arith, h))
starts_with-HasPrefix (a ∷ p) (c ∷ s) h = elim (Bool-cases (a == c)) [
  | inl q ↦
      let (rest, e) = starts_with-HasPrefix p s (ground (arith, h, q)) in
      let same : a ≡ c = ground (arith, q) in (rest, cc)
  | inr q ↦ absurd (ground (arith, h, q))
]

pub starts_with-append : (p rest : Text) → starts_with p (p ++ rest) ≡ true
unfolding starts_with
starts_with-append [] rest = refl
starts_with-append (a ∷ p) rest = ground (arith, starts_with-append p rest)

pub ends_with-HasSuffix : (p s : Text) → ends_with p s ≡ true → HasSuffix p s
unfolding ends_with
ends_with-HasSuffix [] [] h = ([], refl)
ends_with-HasSuffix (a ∷ p) [] h = absurd (ground (arith, h))
ends_with-HasSuffix p (c ∷ s) h = elim (Bool-cases (p == c ∷ s)) [
  | inl q ↦ ([], sym ((list_beq_iff p (c ∷ s)).0 q))
  | inr q ↦
      let (front, e) = ends_with-HasSuffix p s (ground (arith, h, q)) in
      (c ∷ front, ap (λ t. c ∷ t) e)
]

pub ends_with-append : (p front : Text) → ends_with p (front ++ p) ≡ true
unfolding ends_with
ends_with-append [] [] = refl
ends_with-append (a ∷ p) [] = ground (arith, (list_beq_iff (a ∷ p) (a ∷ p)).1 refl)
ends_with-append p (c ∷ front) = ground (arith, ends_with-append p front)

ends_with-longer : (p s : Text) → length s < length p → ends_with p s ≡ false
unfolding ends_with
ends_with-longer [] s h = absurd (omega (arith, h))
ends_with-longer (a ∷ p) [] h = refl
ends_with-longer p (c ∷ s) h = elim (Bool-cases (p == c ∷ s)) [
  | inl e ↦ absurd (omega (arith, ap length ((list_beq_iff p (c ∷ s)).0 e), h))
  | inr e ↦ ground (arith, e, ends_with-longer p s (omega (arith, h)))
]

-- A text ends with one text of a length only.
pub ends_with-other :
    (p q front : Text) → length p ≡ length q → p ≢ q → ends_with p (front ++ q) ≡ false
unfolding ends_with
ends_with-other [] [] [] same other = absurd (other refl)
ends_with-other (a ∷ p) [] [] same other = refl
ends_with-other p (c ∷ q) [] same other = elim (Bool-cases (p == c ∷ q)) [
  | inl e ↦ absurd (other ((list_beq_iff p (c ∷ q)).0 e))
  | inr e ↦ ground (arith, e, ends_with-longer p q (omega (arith, same)))
]
ends_with-other p q (c ∷ front) same other = elim (Bool-cases (p == c ∷ (front ++ q))) [
  | inl e ↦
      let whole = (list_beq_iff p (c ∷ (front ++ q))).0 e in
      absurd (omega (arith, ap length whole, length-append front q, same))
  | inr e ↦ ground (arith, e, ends_with-other p q front same other)
]
