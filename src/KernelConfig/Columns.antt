-- ===== src/KernelConfig/Columns.antt =====
-- The screen that kernel-config.py prints has 80 columns.
use auto_lfs_builder.Prelude.{
  ℕ, zero, suc, ◌+◌, ◌-◌, ◌≤◌, ◌≡◌, ◌⊎◌, inl, inr, refl, sym, ap, subst, ◌∙◌, [], ◌∷◌, ◌++◌,
  append_assoc, append-nil, All, length, length-append, length-replicate, take, Bool, true, false,
  arith, Bool-cases, leb, nat_eq, list_eq, ◌==◌, if◌then◌else◌, Dict,
}
use auto_lfs_builder.Text.{Text, codes, lstrip_by}
use auto_lfs_builder.KernelConfig.Stack.{steps, ok}
use auto_lfs_builder.KernelConfig.Layout.{
  Row, Variant, lfs, strip_initials, escape, padded, used, one_if, spaces, shorten, mark_title,
  place_key, key_text, line_of,
}
use auto_lfs_builder.KernelConfig.Visible.{
  visible, IsPlain, IsBare, visible-escape, visible-bare, visible-spaces, visible-mark_title,
}

-- The letter is looked for from the left: what is left of the title is an end of it.
abbrev pub IsSound : Variant → Type 0
IsSound variant =
    (title b : Text) → variant.skip_initials title ≡ ok b → (a : Text) × (title ≡ a ++ b)

take-append : (a b : Text) → take (length a) (a ++ b) ≡ a
take-append [] b = refl
take-append (c ∷ a) b = ap (λ s. c ∷ s) (take-append a b)

take-suffix :
    (title a b : Text) → title ≡ a ++ b → take (length title - length b) title ++ b ≡ title
take-suffix title a b e =
    let n : length title - length b ≡ length a = omega (arith, ap length e, length-append a b) in
    rw (n, e) (ap (λ s. s ++ b) (take-append a b))

lstrip_by-suffix : (p : ℕ → Bool) (s : Text) → (a : Text) × (s ≡ a ++ lstrip_by p s)
unfolding lstrip_by
lstrip_by-suffix p [] = ([], refl)
lstrip_by-suffix p (c ∷ s) = elim (Bool-cases (p c)) [
  | inl q ↦ let (a, e) = lstrip_by-suffix p s in (c ∷ a, rw q (ap (λ t. c ∷ t) e))
  | inr q ↦ ([], rw q refl)
]

ok-injective {ℓ} : {A : Type ℓ} {a b : A} → ok a ≡ ok b → a ≡ b
ok-injective h = cc h

pub lfs-IsSound : IsSound lfs
unfolding strip_initials
lfs-IsSound title b h =
    let (a, e) = lstrip_by-suffix _ title in (a, e ∙ ap (λ s. a ++ s) (ok-injective h))

length-take_le : (n : ℕ) (s : Text) → length (take n s) ≤ n
length-take_le zero s = omega arith
length-take_le (suc n) [] = omega arith
length-take_le (suc n) (c ∷ s) = omega (arith, length-take_le n s)

length-shorten :
    (taken : ℕ) (title : Text) → taken + 3 ≤ 80 → length (shorten taken title) + taken ≤ 80
unfolding shorten
length-shorten taken title room = ground (
  arith,
  length-append (take (77 - taken) title) (codes "..."),
  length-take_le (77 - taken) title,
)

-- A line is 80 columns wide, or is followed by a line of that width which holds the key.
abbrev pub IsScreenLine : Text → Type 0
IsScreenLine s =
    (length s ≡ 80)
    ⊎ ((first second : Text) × (s ≡ first ++ 0xa ∷ second)
        × (length first ≤ 80)
        × (length second ≡ 80))

place_key-IsScreenLine :
    (first key : Text)
    → length first ≤ 80
    → length key + 4 ≤ 80
    → IsScreenLine (first ++ place_key (length first) key)
unfolding place_key
place_key-IsScreenLine first key h k =
    let pad = 80 - length first - length key in
    let pad' = 80 - length (codes "... " ++ key) in
    elim (Bool-cases (leb (length key + length first) 80)) [
      | inl q ↦
          let room : length key + length first ≤ 80 = ground (arith, q) in
          inl (
            rw q (
              omega (
                arith,
                room,
                length-append first (spaces pad ++ key),
                length-append (spaces pad) key,
                length-replicate {A = ℕ} pad 0x20,
              )))
      | inr q ↦ inr (
        first,
        spaces pad' ++ (codes "... " ++ key),
        rw q refl,
        h,
        omega (
          arith,
          length-append (spaces pad') (codes "... " ++ key),
          length-replicate {A = ℕ} pad' 0x20,
        ),
      )
    ]

-- What the visible text of a line is.
pub record Seen (longest : Dict ℕ ℕ) (row : Row) : Type 0 where
  pub title : All IsPlain (shorten (used row (padded longest row)) row.title)
  pub val : All IsPlain (padded longest row)
  pub arrow : All IsPlain row.arrow
  pub key : All IsBare (key_text row.key)

-- The line without its key.
abbrev pub front : Dict ℕ ℕ → Row → Text
front longest row =
    let val = padded longest row in
    spaces row.i0
    ++ (val ++ (spaces (row.i1 + one_if val) ++ (shorten (used row val) row.title ++ row.arrow)))

length-front :
    (longest : Dict ℕ ℕ) (row : Row)
    → length (front longest row)
      ≡ used row (padded longest row) + length (shorten (used row (padded longest row)) row.title)
length-front longest row =
    let val = padded longest row in
    let gap = row.i1 + one_if val in
    let title = shorten (used row val) row.title in
    omega (
      arith,
      length-append (spaces row.i0) (val ++ (spaces gap ++ (title ++ row.arrow))),
      length-append val (spaces gap ++ (title ++ row.arrow)),
      length-append (spaces gap) (title ++ row.arrow),
      length-append title row.arrow,
      length-replicate {A = ℕ} row.i0 0x20,
      length-replicate {A = ℕ} gap 0x20,
    )

visible-key : (key : Text) → All IsBare key → visible key ≡ key
unfolding visible
visible-key key h = ap visible (sym (append-nil key)) ∙ visible-bare key [] h ∙ append-nil key

visible-place_key :
    (taken : ℕ) (key : Text) → All IsBare key → visible (place_key taken key) ≡ place_key taken key
unfolding place_key
visible-place_key taken key h = elim (Bool-cases (leb (length key + taken) 80)) [
  | inl q ↦
      let n = 80 - taken - length key in
      rw q (visible-spaces n key ∙ ap (λ s. spaces n ++ s) (visible-key key h))
  | inr q ↦
      let n = 80 - length (codes "... " ++ key) in
      rw q (
        visible-bare (codes "\n") (spaces n ++ (codes "... " ++ key)) new_line
        ∙ ap (λ s. codes "\n" ++ s)
            (visible-spaces n (codes "... " ++ key)
              ∙ ap (λ s. spaces n ++ s)
                  (visible-bare (codes "... ") key dots
                    ∙ ap (λ s. codes "... " ++ s) (visible-key key h))))
]
  where
    new_line : All IsBare (codes "\n")
    new_line = omega arith

    dots : All IsBare (codes "... ")
    dots = omega arith

rest_of_title :
    (variant : Variant) (is_choice : Bool) (title b : Text)
    → IsSound variant
    → (if is_choice then ok title else variant.skip_initials title) ≡ ok b
    → (a : Text) × (title ≡ a ++ b)
rest_of_title variant true title b sound h = ([], ok-injective h)
rest_of_title variant false title b sound h = sound title b h

-- Parts that are seen one after the other, the title marked.
visible-parts :
    (i0 gap : ℕ) (val title b m arrow key : Text)
    → All IsPlain val
    → All IsPlain title
    → All IsPlain arrow
    → visible key ≡ key
    → mark_title title b ≡ ok m
    → take (length title - length b) title ++ b ≡ title
    → visible (spaces i0 ++ (escape val ++ (spaces gap ++ (m ++ (escape arrow ++ key)))))
      ≡ (spaces i0 ++ (val ++ (spaces gap ++ (title ++ arrow)))) ++ key
visible-parts i0 gap val title b m arrow key hv ht ha hk hm whole =
    visible-spaces i0 _
    ∙ ap (λ s. spaces i0 ++ s)
        (visible-escape val _ hv
          ∙ ap (λ s. val ++ s)
              (visible-spaces gap _
                ∙ ap (λ s. spaces gap ++ s)
                    (visible-mark_title title b m _ hm whole ht
                      ∙ ap (λ s. title ++ s)
                          (visible-escape arrow key ha ∙ ap (λ s. arrow ++ s) hk))))
    ∙ simp append_assoc

visible-line_of :
    (variant : Variant) (longest : Dict ℕ ℕ) (row : Row) (line : Text)
    → IsSound variant
    → Seen longest row
    → line_of variant longest row ≡ ok line
    → visible line ≡ front longest row ++ place_key (length (front longest row)) (key_text row.key)
unfolding line_of
visible-line_of variant longest row line sound seen h =
    let val = padded longest row in
    let title = shorten (used row val) row.title in
    let (b, found, h') =
      steps (if row.val == codes "(X)" then ok title else variant.skip_initials title) _ h in
    let (m, marked, h'') = steps (mark_title title b) _ h' in
    let (a, split) = rest_of_title variant (row.val == codes "(X)") title b sound found in
    ap visible (sym (ok-injective h''))
    ∙ visible-parts row.i0 (row.i1 + one_if val) val title b m row.arrow
        (place_key (used row val + length title) (key_text row.key)) seen.val seen.title seen.arrow
        (visible-place_key (used row val + length title) (key_text row.key) seen.key) marked
        (take-suffix title a b split)
    ∙ ap (λ n. front longest row ++ place_key n (key_text row.key)) (sym (length-front longest row))

-- Without its markup a line is 80 columns wide, or is followed by a line of that width for its key,
-- where no part of the row has an ampersand or the key a `<`, and where the indentation, the value
-- and the arrow leave three columns for the title and the key is no longer than 76. The trailing
-- spaces are counted, which are removed where the line is printed.
pub line_of-IsScreenLine :
    (variant : Variant) (longest : Dict ℕ ℕ) (row : Row) (line : Text)
    → IsSound variant
    → Seen longest row
    → used row (padded longest row) + 3 ≤ 80
    → length (key_text row.key) ≤ 76
    → line_of variant longest row ≡ ok line
    → IsScreenLine (visible line)
line_of-IsScreenLine variant longest row line sound seen room short h =
    let taken = used row (padded longest row) in
    subst IsScreenLine (sym (visible-line_of variant longest row line sound seen h)) (
      place_key-IsScreenLine (front longest row) (key_text row.key)
        (omega (arith, length-front longest row, length-shorten taken row.title room))
        (omega (arith, short)))
