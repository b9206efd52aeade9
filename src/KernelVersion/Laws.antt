-- ===== src/KernelVersion/Laws.antt =====
-- What `kernel_version` returns.
use auto_lfs_builder.Prelude.{
  ℕ, ◌≡◌, ◌≢◌, ◌↔◌, refl, List, [], ◌∷◌, drop, length, Option, none, some, true, false, arith,
  if◌then◌else◌, nat_eq, Bool-cases, inl, inr, ap, sym, ◌∙◌,
}
use auto_lfs_builder.Text.{Text, codes, strip, starts_with, join}
use auto_lfs_builder.KernelVersion.{Version, unknown, read_line, read_lines, joined, kernel_version}

-- What the last line with that prefix says behind it.
unfoldable pub last_value : Text → List Text → Option Text
last_value prefix [] = none
last_value prefix (line ∷ lines) = elim (last_value prefix lines) [
  | some t ↦ some t
  | none ↦ if starts_with prefix line then some (strip (drop (length prefix) line)) else none
]

abbrev value_or : Option Text → Option Text → Option Text
value_or none v = v
value_or (some t) v = some t

-- The prefixes begin with different letters.
distinct_prefixes :
    (line : Text)
    → (starts_with (codes "PATCHLEVEL =") line ≡ true
        → starts_with (codes "VERSION =") line ≡ false)
      × (starts_with (codes "SUBLEVEL =") line ≡ true
          → (starts_with (codes "VERSION =") line ≡ false)
            × (starts_with (codes "PATCHLEVEL =") line ≡ false))
unfolding starts_with
distinct_prefixes [] = (λ h. cc, λ h. cc)
distinct_prefixes (c ∷ line) = (
  λ h. by_letter b'P' b'V' (codes "ATCHLEVEL =") (codes "ERSION =") (λ e. omega (arith, e)) h,
  λ h. (
    by_letter b'S' b'V' (codes "UBLEVEL =") (codes "ERSION =") (λ e. omega (arith, e)) h,
    by_letter b'S' b'P' (codes "UBLEVEL =") (codes "ATCHLEVEL =") (λ e. omega (arith, e)) h,
  ),
)
  where
    by_letter :
        (p q : ℕ) (ps qs : Text)
        → p ≢ q
        → starts_with (p ∷ ps) (c ∷ line) ≡ true
        → starts_with (q ∷ qs) (c ∷ line) ≡ false
    by_letter p q ps qs ne h = ground (arith, nat_eq.beq_iff p c, nat_eq.beq_iff q c)

-- What one line says behind the prefix.
abbrev value_in : Text → Text → Option Text
value_in prefix line =
    if starts_with prefix line then some (strip (drop (length prefix) line)) else none

read_line-value_in :
    (line : Text) (v : Version)
    → ((read_line line v).version ≡ value_or (value_in (codes "VERSION =") line) v.version)
      × ((read_line line v).patchlevel
          ≡ value_or (value_in (codes "PATCHLEVEL =") line) v.patchlevel)
      × ((read_line line v).sublevel ≡ value_or (value_in (codes "SUBLEVEL =") line) v.sublevel)
unfolding read_line
read_line-value_in line v =
    let (d, e) = distinct_prefixes line in
    elim (Bool-cases (starts_with (codes "VERSION =") line)) [
      | inl a ↦ ground (arith, a, d, e)
      | inr a ↦ elim (Bool-cases (starts_with (codes "PATCHLEVEL =") line)) [
        | inl b ↦ ground (arith, a, b, d, e)
        | inr b ↦ elim (Bool-cases (starts_with (codes "SUBLEVEL =") line)) [
          | inl c ↦ ground (arith, a, b, c)
          | inr c ↦ ground (arith, a, b, c)
        ]
      ]
    ]

last_value-cons :
    (prefix line : Text) (lines : List Text) (v : Option Text)
    → value_or (last_value prefix (line ∷ lines)) v
      ≡ value_or (last_value prefix lines) (value_or (value_in prefix line) v)
unfolding last_value
last_value-cons prefix line lines v = ground arith

read_lines-last_value :
    (lines : List Text) (v : Version)
    → ((read_lines lines v).version ≡ value_or (last_value (codes "VERSION =") lines) v.version)
      × ((read_lines lines v).patchlevel
          ≡ value_or (last_value (codes "PATCHLEVEL =") lines) v.patchlevel)
      × ((read_lines lines v).sublevel
          ≡ value_or (last_value (codes "SUBLEVEL =") lines) v.sublevel)
unfolding read_lines
read_lines-last_value [] v = unfold last_value in (refl, refl, refl)
read_lines-last_value (line ∷ lines) v =
    let (i, j, k) = read_lines-last_value lines (read_line line v) in
    let (d, e, f) = read_line-value_in line v in
    (
      i
          ∙ ap (value_or (last_value (codes "VERSION =") lines)) d
          ∙ sym (last_value-cons (codes "VERSION =") line lines v.version),
      j
          ∙ ap (value_or (last_value (codes "PATCHLEVEL =") lines)) e
          ∙ sym (last_value-cons (codes "PATCHLEVEL =") line lines v.patchlevel),
      k
          ∙ ap (value_or (last_value (codes "SUBLEVEL =") lines)) f
          ∙ sym (last_value-cons (codes "SUBLEVEL =") line lines v.sublevel),
    )

-- A text that is there and not empty.
abbrev pub Given : Option Text → Text → Type 0
Given o t = (o ≡ some t) × (t ≢ [])

joined-Given :
    (a b c : Option Text) (text : Text)
    → (joined a b c ≡ some text) ↔ (
        (v p s : Text) × Given a v
        × Given b p
        × Given c s
        × (text ≡ join (codes ".") (v ∷ p ∷ s ∷ [])))
unfolding joined
joined-Given none b c text = (λ h. cc h, λ (v, p, s, g, g', g'', e). cc (g.0))
joined-Given (some []) b c text = (λ h. cc h, λ (v, p, s, g, g', g'', e). absurd (g.1 (cc (g.0))))
joined-Given (some (x ∷ v)) none c text = (λ h. cc h, λ (v, p, s, g, g', g'', e). cc (g'.0))
joined-Given (some (x ∷ v)) (some []) c text =
    (λ h. cc h, λ (v, p, s, g, g', g'', e). absurd (g'.1 (cc (g'.0))))
joined-Given (some (x ∷ v)) (some (y ∷ p)) none text =
    (λ h. cc h, λ (v, p, s, g, g', g'', e). cc (g''.0))
joined-Given (some (x ∷ v)) (some (y ∷ p)) (some []) text =
    (λ h. cc h, λ (v, p, s, g, g', g'', e). absurd (g''.1 (cc (g''.0))))
joined-Given (some (x ∷ v)) (some (y ∷ p)) (some (z ∷ s)) text = (
  λ h. (x ∷ v, y ∷ p, z ∷ s, (refl, λ e. cc e), (refl, λ e. cc e), (refl, λ e. cc e), cc h),
  λ (v, p, s, g, g', g'', e). cc (g.0, g'.0, g''.0, e),
)

value_or-none : (o : Option Text) → value_or o none ≡ o
value_or-none none = refl
value_or-none (some t) = refl

-- The version is returned exactly when the last line with each of the three prefixes has a text
-- behind it that is not blank, and it is these texts, joined by full stops.
pub kernel_version-last_value :
    (lines : List Text) (text : Text)
    → (kernel_version lines ≡ some text) ↔ (
        (v p s : Text) × Given (last_value (codes "VERSION =") lines) v
        × Given (last_value (codes "PATCHLEVEL =") lines) p
        × Given (last_value (codes "SUBLEVEL =") lines) s
        × (text ≡ join (codes ".") (v ∷ p ∷ s ∷ [])))
unfolding kernel_version
kernel_version-last_value lines text =
    let (i, j, k) = read_lines-last_value lines unknown in
    rw
      (
        i ∙ value_or-none (last_value (codes "VERSION =") lines),
        j ∙ value_or-none (last_value (codes "PATCHLEVEL =") lines),
        k ∙ value_or-none (last_value (codes "SUBLEVEL =") lines),
      )
      (joined-Given (last_value (codes "VERSION =") lines) (last_value (codes "PATCHLEVEL =") lines)
        (last_value (codes "SUBLEVEL =") lines) text)
