-- ===== src/KernelConfig/Visible.antt =====
-- What a reader sees of the markup that kernel-config.py writes.
use auto_lfs_builder.Prelude.{
  ℕ, zero, suc, take, subst, ◌-◌, ◌≡◌, ◌≢◌, refl, sym, ap, ◌∙◌, List, [], ◌∷◌, ◌++◌, append_assoc,
  All, length, Bool, true, false, not, nat_eq, ◌==◌, if◌then◌else◌, arith, Bool-cases, inl, inr,
}
use auto_lfs_builder.Text.{Text, codes, starts_with}
use auto_lfs_builder.KernelConfig.Lines.{replace_from}
use auto_lfs_builder.KernelConfig.Layout.{escape, mark_title, spaces}
use auto_lfs_builder.KernelConfig.Stack.{ok}

-- The text without its tags and with the two entities replaced: the number counts the characters of
-- an entity that are still to be left out, and the test tells that a tag is open.
unfoldable pub visible_from : ℕ → Bool → Text → Text
unfolding starts_with
visible_from k tag [] = []
visible_from (suc k) tag (c ∷ s) = visible_from k tag s
visible_from zero true (c ∷ s) = visible_from zero (not (c == b'>')) s
visible_from zero false (c ∷ s) =
    let lt = starts_with (codes "&lt;") (c ∷ s) in
    let gt = starts_with (codes "&gt;") (c ∷ s) in
    let rest = visible_from (if lt then 3 else if gt then 3 else 0) (c == b'<') s in
    if c == b'<' then rest else (if lt then b'<' else if gt then b'>' else c) ∷ rest

unfoldable pub visible : Text → Text
unfolding visible_from
visible s = visible_from 0 false s

-- One character, escaped.
abbrev pub escaped : ℕ → Text
escaped c = if c == b'<' then codes "&lt;" else if c == b'>' then codes "&gt;" else c ∷ []

abbrev pub escaped_text : Text → Text
escaped_text [] = []
escaped_text (c ∷ s) = escaped c ++ escaped_text s

replace_from-cons :
    (d c : ℕ) (new s : Text)
    → replace_from (d ∷ []) new 0 (c ∷ s)
      ≡ (if c == d then new ++ replace_from (d ∷ []) new 0 s else c ∷ replace_from (d ∷ []) new 0 s)
unfolding replace_from
replace_from-cons d c new s = elim (Bool-cases (c == d)) [
  | inl q ↦ ground (arith, q, nat_eq.beq_iff c d, nat_eq.beq_iff d c)
  | inr q ↦ ground (arith, q, nat_eq.beq_iff c d, nat_eq.beq_iff d c)
]

escape-cons : (c : ℕ) (s : Text) → escape (c ∷ s) ≡ escaped c ++ escape s
unfolding escape
escape-cons c s = elim (Bool-cases (c == b'<')) [
  | inl q ↦ rw (replace_from-cons b'<' c (codes "&lt;") s, q) refl
  | inr q ↦
      rw (replace_from-cons b'<' c (codes "&lt;") s, q)
        (replace_from-cons b'>' c (codes "&gt;") (replace_from (codes "<") (codes "&lt;") 0 s)
          ∙ ground arith)
]

-- A character that starts no entity.
abbrev pub IsPlain : ℕ → Type 0
IsPlain c = c ≢ b'&'

visible-escaped : (c : ℕ) (t : Text) → IsPlain c → visible (escaped c ++ t) ≡ c ∷ visible t
unfolding visible
visible-escaped c t h = elim (Bool-cases (c == b'<')) [
  | inl q ↦ rw ((nat_eq.beq_iff c b'<').0 q) refl
  | inr q ↦ elim (Bool-cases (c == b'>')) [
    | inl r ↦ rw ((nat_eq.beq_iff c b'>').0 r) refl
    | inr r ↦ rw (q, r) (visible-plain c t q h)
  ]
]
  where
    visible-plain :
        (c : ℕ) (t : Text) → (c == b'<') ≡ false → IsPlain c → visible (c ∷ t) ≡ c ∷ visible t
    visible-plain c t q h = ground (arith, q, nat_eq.beq_iff b'&' c)

-- The escaped text is seen as it was, if it has no ampersand: `escape` leaves those as they are.
pub visible-escape : (s t : Text) → All IsPlain s → visible (escape s ++ t) ≡ s ++ visible t
visible-escape [] t h = unfold escape in refl
visible-escape (c ∷ s) t h =
    ap (λ x. visible (x ++ t)) (escape-cons c s)
    ∙ ap visible (append_assoc (escaped c) (escape s) t)
    ∙ visible-escaped c (escape s ++ t) h.0
    ∙ ap (λ x. c ∷ x) (visible-escape s t h.1)

-- A character that is seen as it is.
abbrev pub IsBare : ℕ → Type 0
IsBare c = (c ≢ b'<') × (c ≢ b'&')

visible-cons : (c : ℕ) (t : Text) → IsBare c → visible (c ∷ t) ≡ c ∷ visible t
unfolding visible
visible-cons c t (h, k) = ground (arith, nat_eq.beq_iff b'&' c, nat_eq.beq_iff c b'<')

pub visible-bare : (s t : Text) → All IsBare s → visible (s ++ t) ≡ s ++ visible t
visible-bare [] t h = refl
visible-bare (c ∷ s) t h = visible-cons c (s ++ t) h.0 ∙ ap (λ x. c ∷ x) (visible-bare s t h.1)

space-IsBare : IsBare 0x20
space-IsBare = (λ e. omega (arith, e), λ e. omega (arith, e))

pub visible-spaces : (n : ℕ) (t : Text) → visible (spaces n ++ t) ≡ spaces n ++ visible t
visible-spaces zero t = refl
visible-spaces (suc n) t =
    visible-cons 0x20 (spaces n ++ t) space-IsBare ∙ ap (λ x. 0x20 ∷ x) (visible-spaces n t)

-- The two tags are not seen.
visible-opening : (t : Text) → visible (codes "<emphasis role='blue'>" ++ t) ≡ visible t
unfolding visible
visible-opening t = refl

visible-closing : (t : Text) → visible (codes "</emphasis>" ++ t) ≡ visible t
unfolding visible
visible-closing t = refl

pub All-left {ℓ κ} :
    {A : Type ℓ} (P : A → Type κ) (xs ys : List A) → All P (xs ++ ys) → All P xs × All P ys
All-left P [] ys h = (tt, h)
All-left P (x ∷ xs) ys h = let (a, b) = All-left P xs ys h.1 in ((h.0, a), b)

ok-injective {ℓ} : {A : Type ℓ} {a b : A} → ok a ≡ ok b → a ≡ b
ok-injective h = cc h

-- The marked title is seen as the title.
pub visible-mark_title :
    (title b m t : Text)
    → mark_title title b ≡ ok m
    → take (length title - length b) title ++ b ≡ title
    → All IsPlain title
    → visible (m ++ t) ≡ title ++ visible t
unfolding mark_title
visible-mark_title title [] m t h whole plain = cc h
visible-mark_title title (c ∷ b) m t h whole plain =
    let a = take (length title - length (c ∷ b)) title in
    let parts : All IsPlain a × All IsPlain (c ∷ b) =
      All-left IsPlain a (c ∷ b) (subst (All IsPlain) (sym whole) plain) in
    let tail = codes "</emphasis>" ++ escape b in
    ap (λ x. visible (x ++ t)) (sym (ok-injective h))
    ∙ ap visible
        (append_assoc (escape a) (codes "<emphasis role='blue'>" ++ (escape (c ∷ []) ++ tail)) t)
    ∙ visible-escape a ((codes "<emphasis role='blue'>" ++ (escape (c ∷ []) ++ tail)) ++ t) parts.0
    ∙ ap (λ x. a ++ x)
        (visible-opening ((escape (c ∷ []) ++ tail) ++ t)
          ∙ ap visible (append_assoc (escape (c ∷ [])) tail t)
          ∙ visible-escape (c ∷ []) (tail ++ t) ((parts.1).0, tt)
          ∙ ap (λ x. c ∷ x) (visible-closing (escape b ++ t) ∙ visible-escape b t ((parts.1).1)))
    ∙ sym (append_assoc a (c ∷ b) (visible t))
    ∙ ap (λ x. x ++ visible t) whole
