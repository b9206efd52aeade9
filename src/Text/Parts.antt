-- ===== src/Text/Parts.antt =====
-- Laws of `splitlines`, `split` and `join`.
use auto_lfs_builder.Prelude.{
  ℕ, ◌≡◌, ◌≢◌, refl, ap, ◌∙◌, false, ◌&&◌, List, [], ◌∷◌, ◌++◌, Bool-cases, inl, inr, arith, All,
  contains, nat_eq, list_eq, ◌==◌,
}
use auto_lfs_builder.Text.{Text, cons_head, split_on, join, splitlines, is_line_break, starts_with}

abbrev pub Lacks : ℕ → Text → Type 0
Lacks c s = contains c s ≡ false

-- No line boundary inside.
abbrev pub IsLine : Text → Type 0
IsLine s = All (λ c. is_line_break c ≡ false) s

module _ (sep : ℕ) where
  pub split_on_whole : (p : Text) → Lacks sep p → split_on sep p ≡ p ∷ []
  unfolding split_on contains cons_head
  split_on_whole [] h = refl
  split_on_whole (c ∷ p) h = ground (arith, split_on_whole p)

  pub split_on_front :
      (p rest : Text) → Lacks sep p → split_on sep (p ++ sep ∷ rest) ≡ p ∷ split_on sep rest
  unfolding split_on contains cons_head
  split_on_front [] rest h = ground arith
  split_on_front (c ∷ p) rest h = ground (arith, split_on_front p rest)

  -- Splitting a join gives the parts back.
  pub split_on-join :
      (ps : List Text) → ps ≢ [] → All (Lacks sep) ps → split_on sep (join (sep ∷ []) ps) ≡ ps
  unfolding join
  split_on-join [] h a = absurd (h refl)
  split_on-join (p ∷ []) h a = split_on_whole p a.0
  split_on-join (p ∷ q ∷ ps) h a =
      split_on_front p (join (sep ∷ []) (q ∷ ps)) a.0
      ∙ ap (λ l. p ∷ l) (split_on-join (q ∷ ps) (λ e. cc) a.1)

  All-cons_head :
      (c : ℕ) (l : List Text)
      → (c == sep) ≡ false
      → All (Lacks sep) l
      → All (Lacks sep) (cons_head c l)
  unfolding cons_head contains
  All-cons_head c [] h a = ground arith
  All-cons_head c (x ∷ l) h a = ground arith

  Lacks-nil : Lacks sep []
  unfolding contains
  Lacks-nil = refl

  -- No part holds the separator.
  pub split_on-Lacks : (s : Text) → All (Lacks sep) (split_on sep s)
  unfolding split_on
  split_on-Lacks [] = (Lacks-nil, tt)
  split_on-Lacks (c ∷ s) = elim (Bool-cases (c == sep)) [
    | inl same ↦ rw same (Lacks-nil, split_on-Lacks s)
    | inr other ↦ rw other (All-cons_head c (split_on sep s) other (split_on-Lacks s))
  ]

cons_head-IsLine :
    (c : ℕ) (l : List Text) → is_line_break c ≡ false → All IsLine l → All IsLine (cons_head c l)
unfolding cons_head
cons_head-IsLine c [] h a = ((h, tt), tt)
cons_head-IsLine c (x ∷ l) h a = ((h, a.0), a.1)

-- The lines of a text hold no line boundary.
pub splitlines-IsLine : (s : Text) → All IsLine (splitlines s)
unfolding splitlines
splitlines-IsLine [] = tt
splitlines-IsLine (c ∷ s) = elim (Bool-cases (c == 0xd && starts_with (0xa ∷ []) s)) [
  | inl crlf ↦ rw crlf (splitlines-IsLine s)
  | inr other ↦ rw other (elim (Bool-cases (is_line_break c)) [
    | inl brk ↦ rw brk (tt, splitlines-IsLine s)
    | inr plain ↦ rw plain (cons_head-IsLine c (splitlines s) plain (splitlines-IsLine s))
  ])
]

pub IsLine-Lacks : (s : Text) → IsLine s → Lacks 0xa s
unfolding contains is_line_break
IsLine-Lacks [] h = refl
IsLine-Lacks (c ∷ s) h = ground (arith, IsLine-Lacks s)
