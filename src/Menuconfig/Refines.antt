-- ===== src/Menuconfig/Refines.antt =====
-- The edit box of menuconfig.py does what its specification says.
use auto_lfs_builder.Prelude.{
  ℕ, zero, suc, ◌+◌, ◌-◌, ◌≤◌, ◌≡◌, refl, sym, ap, ◌∙◌, [], ◌∷◌, ◌++◌, append-nil, length, take,
  drop, Bool, true, false, ltb, Option, if◌then◌else◌, on_if, arith, nat_eq, ◌==◌,
}
use auto_lfs_builder.Text.{Text}
use auto_lfs_builder.Menuconfig.Edit.{
  Key, key_left, key_right, key_up, key_down, key_home, key_end, key_npage, key_ppage,
  key_backspace, key_dc, key_resize, other_key, char, edit_key, edit_char, delete_before,
  delete_word, insert_char, word_start, is_erase,
}
use auto_lfs_builder.Menuconfig.Editor.{Gap, front, last_of, without_word, edited_char, edited}
use auto_lfs_builder.Menuconfig.View.{word_start-length, length-take_le}
use auto_lfs_builder.Menuconfig.WordEnd.{take-word_start}
use auto_lfs_builder.Menuconfig.Typing.{take-drop, take-insert, drop-insert}

-- The gap at the cursor.
abbrev pub gap : Text → ℕ → Gap
gap s i = record { before = take i s; after = drop i s }

-- The cursor in front of the last character of a text that is followed by another.
front-take : (i : ℕ) (s : Text) → suc i ≤ length s → front (take (suc i) s) ≡ take i s
unfolding front
front-take i [] h = absurd (omega (arith, h))
front-take zero (c ∷ s) h = refl
front-take (suc i) (c ∷ []) h = absurd (omega (arith, h))
front-take (suc i) (c ∷ d ∷ s) h = ap (λ r. c ∷ r) (front-take i (d ∷ s) (omega arith))

last_of-take :
    (i : ℕ) (s : Text) → suc i ≤ length s → last_of (take (suc i) s) ++ drop (suc i) s ≡ drop i s
unfolding last_of
last_of-take i [] h = absurd (omega (arith, h))
last_of-take zero (c ∷ s) h = refl
last_of-take (suc i) (c ∷ []) h = absurd (omega (arith, h))
last_of-take (suc i) (c ∷ d ∷ s) h = last_of-take i (d ∷ s) (omega arith)

-- What stands before and after a cursor that is behind a part of the text.
take-front : (i : ℕ) (s t : Text) → i ≤ length s → take i (take i s ++ t) ≡ take i s
take-front zero s t h = refl
take-front (suc i) [] t h = absurd (omega (arith, h))
take-front (suc i) (c ∷ s) t h = ap (λ r. c ∷ r) (take-front i s t (omega arith))

drop-front : (i : ℕ) (s t : Text) → i ≤ length s → drop i (take i s ++ t) ≡ t
drop-front zero s t h = refl
drop-front (suc i) [] t h = absurd (omega (arith, h))
drop-front (suc i) (c ∷ s) t h = drop-front i s t (omega arith)

take_right : (i : ℕ) (s : Text) → take i s ++ take 1 (drop i s) ≡ take (suc i) s
take_right zero s = refl
take_right (suc i) [] = refl
take_right (suc i) (c ∷ s) = ap (λ r. c ∷ r) (take_right i s)

drop_right : (i : ℕ) (s : Text) → drop 1 (drop i s) ≡ drop (suc i) s
drop_right zero s = refl
drop_right (suc i) [] = refl
drop_right (suc i) (c ∷ s) = drop_right i s

take_past : (i : ℕ) (s : Text) → length s ≤ i → take i s ≡ s
take_past zero [] h = refl
take_past zero (c ∷ s) h = absurd (omega (arith, h))
take_past (suc i) [] h = refl
take_past (suc i) (c ∷ s) h = ap (λ r. c ∷ r) (take_past i s (omega arith))

drop_past : (i : ℕ) (s : Text) → length s ≤ i → drop i s ≡ []
drop_past zero [] h = refl
drop_past zero (c ∷ s) h = absurd (omega (arith, h))
drop_past (suc i) [] h = refl
drop_past (suc i) (c ∷ s) h = drop_past i s (omega arith)

take-take : (n i : ℕ) (s : Text) → n ≤ i → take n (take i s) ≡ take n s
take-take zero i s h = refl
take-take (suc n) zero s h = absurd (omega (arith, h))
take-take (suc n) (suc i) [] h = refl
take-take (suc n) (suc i) (c ∷ s) h = ap (λ r. c ∷ r) (take-take n i s (omega arith))

take-front_nil : (i : ℕ) (s : Text) → take i (take i s) ≡ take i s
take-front_nil i s = take-take i i s (omega arith)

drop-front_nil : (i : ℕ) (s : Text) → i ≤ length s → drop i (take i s) ≡ []
drop-front_nil i s h = ap (λ r. drop i r) (sym (append-nil (take i s))) ∙ drop-front i s [] h

gap_eq :
    {b b' a a' : Text}
    → b ≡ b'
    → a ≡ a'
    → ◌≡◌ {A = Gap} (record { before = b; after = a }) (record { before = b'; after = a' })
gap_eq p q = cc (p, q)

delete_before-suc : (s : Text) (i : ℕ) → delete_before s (suc i) ≡ (take i s ++ drop (suc i) s, i)
unfolding delete_before
delete_before-suc s i =
    let one_less : suc i - 1 ≡ i = omega arith in
    on_if (λ (r : Text × ℕ). r ≡ (take i s ++ drop (suc i) s, i)) (ltb 0 (suc i))
      (λ _. ap (λ (j : ℕ). (take j s ++ drop (suc i) s, j)) one_less)
      (λ q. absurd (ground (arith, q)))

delete_before-gap :
    (s : Text) (i : ℕ)
    → i ≤ length s
    → gap (delete_before s i).0 (delete_before s i).1
      ≡ record { before = front (take i s); after = drop i s }
unfolding front
delete_before-gap s zero h = unfold delete_before in refl
delete_before-gap s (suc i) h =
    ap (λ r. gap r.0 r.1) (delete_before-suc s i)
    ∙ gap_eq (take-front i s (drop (suc i) s) (omega arith) ∙ sym (front-take i s h))
        (drop-front i s (drop (suc i) s) (omega arith))

delete_word-gap :
    (s : Text) (i : ℕ)
    → i ≤ length s
    → gap (delete_word s i).0 (delete_word s i).1
      ≡ record { before = without_word (take i s); after = drop i s }
unfolding delete_word
delete_word-gap s i h =
    let n = word_start (take i s) in
    let below : n ≤ i = omega (arith, word_start-length (take i s), length-take_le i s h) in
    gap_eq
      (take-front n s (drop i s) (omega (arith, below, h))
        ∙ sym (take-take n i s below)
        ∙ take-word_start (take i s))
      (drop-front n s (drop i s) (omega (arith, below, h)))

insert_char-gap :
    (c : ℕ) (s : Text) (i : ℕ)
    → i ≤ length s
    → gap (insert_char c s i).0 (insert_char c s i).1
      ≡ record { before = take i s ++ c ∷ []; after = drop i s }
unfolding insert_char
insert_char-gap c s i h =
    let next : i + 1 ≡ suc i = omega arith in
    ap (λ j. gap (take i s ++ c ∷ drop i s) j) next
    ∙ gap_eq (take-insert i c s h) (drop-insert i c s h)

pub if_map {ℓ κ} :
    {A : Type ℓ} {B : Type κ} (f : A → B) (b : Bool) {x x' : A} {y y' : B}
    → f x ≡ y
    → f x' ≡ y'
    → f (if b then x else x') ≡ (if b then y else y')
if_map f true p q = p
if_map f false p q = q

edit_char-gap :
    (erase : Option ℕ) (c : ℕ) (s : Text) (i : ℕ)
    → i ≤ length s
    → gap (edit_char erase c s i).0 (edit_char erase c s i).1 ≡ edited_char erase c (gap s i)
unfolding edit_char edited_char
edit_char-gap erase c s i h = if_map view (c == 0x01) (gap_eq refl (sym (take-drop i s))) (
    if_map view (c == 0x05)
      (gap_eq (take_past (length s) s (omega arith) ∙ sym (take-drop i s))
        (drop_past (length s) s (omega arith)))
      (if_map view (is_erase erase c) (delete_before-gap s i h) (
        if_map view (c == 0x17) (delete_word-gap s i h) (
          if_map view (c == 0x0b) (gap_eq (take-front_nil i s) (drop-front_nil i s h))
            (if_map view (c == 0x15) refl (insert_char-gap c s i h))))))
  where
    view : Text × ℕ → Gap
    view r = gap r.0 r.1

pub edit_key-gap :
    (erase : Option ℕ) (c : Key) (s : Text) (i : ℕ)
    → i ≤ length s
    → gap (edit_key erase c s i).0 (edit_key erase c s i).1 ≡ edited erase c (gap s i)
unfolding edit_key edited
edit_key-gap erase key_left s zero h = gap_eq refl refl
edit_key-gap erase key_left s (suc i) h =
    let one_less : suc i - 1 ≡ i = omega arith in
    ap (gap s) one_less ∙ gap_eq (sym (front-take i s h)) (sym (last_of-take i s h))
edit_key-gap erase key_right s i h =
    on_if
      (λ j. gap s j ≡ record { before = take i s ++ take 1 (drop i s); after = drop 1 (drop i s) })
      (ltb i (length s))
      (λ _.
        let next : i + 1 ≡ suc i = omega arith in
        ap (gap s) next ∙ gap_eq (sym (take_right i s)) (sym (drop_right i s)))
      (λ q.
        let at_end : i ≡ length s = ground (arith, q, h) in
        gap_eq
          (take_past i s (omega (arith, at_end))
            ∙ sym (take_right i s ∙ take_past (suc i) s (omega (arith, at_end))))
          (drop_past i s (omega (arith, at_end))
            ∙ sym (drop_right i s ∙ drop_past (suc i) s (omega (arith, at_end)))))
edit_key-gap erase key_home s i h = gap_eq refl (sym (take-drop i s))
edit_key-gap erase key_end s i h =
    gap_eq (take_past (length s) s (omega arith) ∙ sym (take-drop i s))
      (drop_past (length s) s (omega arith))
edit_key-gap erase key_backspace s i h = delete_before-gap s i h
edit_key-gap erase key_dc s i h =
    let next : i + 1 ≡ suc i = omega arith in
    gap_eq (take-front i s (drop (i + 1) s) h)
      (drop-front i s (drop (i + 1) s) h ∙ ap (λ j. drop j s) next ∙ sym (drop_right i s))
edit_key-gap erase (char c) s i h = edit_char-gap erase c s i h
edit_key-gap erase key_up s i h = refl
edit_key-gap erase key_down s i h = refl
edit_key-gap erase key_npage s i h = refl
edit_key-gap erase key_ppage s i h = refl
edit_key-gap erase key_resize s i h = refl
edit_key-gap erase (other_key n) s i h = refl
