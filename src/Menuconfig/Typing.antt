-- ===== src/Menuconfig/Typing.antt =====
-- A text that is typed into the dialog.
use auto_lfs_builder.Prelude.{
  ℕ, zero, suc, ◌+◌, ◌≤◌, ◌<◌, ◌≡◌, refl, sym, ap, ◌∙◌, List, [], ◌∷◌, ◌++◌, map, append_assoc, All,
  length, take, drop, false, Option, arith, nat_eq,
}
use auto_lfs_builder.Text.{Text}
use auto_lfs_builder.Menuconfig.Edit.{
  Key, Box, char, entered, edit_text, edit_key, edit_char, insert_char, is_erase, dialog_loop,
}

-- A character that is inserted.
abbrev pub IsPlain : Option ℕ → ℕ × ℕ → Type 0
IsPlain erase (c, width) = (31 < c) × (is_erase erase c ≡ false)

-- The keys of characters that are typed, with the width of the box after each.
abbrev pub typed : List (ℕ × ℕ) → List (Key × ℕ)
typed t = map (λ (c, width). (char c, width)) t

abbrev pub letters_of : List (ℕ × ℕ) → Text
letters_of t = map (λ (c, width). c) t

edit_char-plain :
    (erase : Option ℕ) (c : ℕ) (s : Text) (i : ℕ)
    → 31 < c
    → is_erase erase c ≡ false
    → edit_char erase c s i ≡ (take i s ++ c ∷ drop i s, i + 1)
unfolding edit_char insert_char
edit_char-plain erase c s i big plain = ground (arith, big, plain)

pub take-insert :
    (i c : ℕ) (s : Text)
    → i ≤ length s
    → take (suc i) (take i s ++ c ∷ drop i s) ≡ take i s ++ c ∷ []
take-insert zero c s h = refl
take-insert (suc i) c [] h = absurd (omega (arith, h))
take-insert (suc i) c (d ∷ s) h = ap (λ t. d ∷ t) (take-insert i c s (omega arith))

pub drop-insert :
    (i c : ℕ) (s : Text) → i ≤ length s → drop (suc i) (take i s ++ c ∷ drop i s) ≡ drop i s
drop-insert zero c s h = refl
drop-insert (suc i) c [] h = absurd (omega (arith, h))
drop-insert (suc i) c (d ∷ s) h = drop-insert i c s (omega arith)

length-insert : (i c : ℕ) (s : Text) → i ≤ length s → suc i ≤ length (take i s ++ c ∷ drop i s)
length-insert zero c s h = omega arith
length-insert (suc i) c [] h = omega (arith, h)
length-insert (suc i) c (d ∷ s) h = omega (arith, length-insert i c s (omega arith))

pub take-drop : (i : ℕ) (s : Text) → take i s ++ drop i s ≡ s
take-drop zero s = refl
take-drop (suc i) [] = refl
take-drop (suc i) (c ∷ s) = ap (λ t. c ∷ t) (take-drop i s)

-- What is typed after a character stands behind it.
insert_then :
    (i c : ℕ) (s t : Text)
    → i ≤ length s
    → take (suc i) (take i s ++ c ∷ drop i s) ++ (t ++ drop (suc i) (take i s ++ c ∷ drop i s))
      ≡ take i s ++ c ∷ (t ++ drop i s)
insert_then i c s t h =
    rw (take-insert i c s h, drop-insert i c s h, append_assoc (take i s) (c ∷ []) (t ++ drop i s))
      refl

-- Characters that are typed at a cursor in the text, and Enter: the dialog returns the text with them
-- at the cursor, in their order.
pub dialog_loop-typed :
    (erase : Option ℕ) (t : List (ℕ × ℕ)) (box : Box) (width : ℕ) (keys : List (Key × ℕ))
    → box.i ≤ length box.s
    → All (IsPlain erase) t
    → dialog_loop erase (typed t ++ (char 0x0a, width) ∷ keys) box
      ≡ entered (take box.i box.s ++ (letters_of t ++ drop box.i box.s))
unfolding dialog_loop edit_text edit_key
dialog_loop-typed erase [] box width keys h plain = ap entered (sym (take-drop box.i box.s))
dialog_loop-typed erase ((c, w) ∷ t) box width keys h plain =
    let split = edit_char-plain erase c box.s box.i plain.0.0 plain.0.1 in
    let next = edit_text erase (char c) box w in
    let at_i : next.i ≡ suc box.i = omega (arith, ap (λ e. e.1) split) in
    let at_s : next.s ≡ take box.i box.s ++ c ∷ drop box.i box.s = ap (λ e. e.0) split in
    let inside : next.i ≤ length next.s = rw (at_i, at_s) (length-insert box.i c box.s h) in
    let rest = dialog_loop-typed erase t next width keys inside plain.1 in
    let back : take next.i next.s ++ (letters_of t ++ drop next.i next.s)
        ≡ take box.i box.s ++ c ∷ (letters_of t ++ drop box.i box.s) =
      rw (at_i, at_s) (insert_then box.i c box.s (letters_of t) h) in
    let whole = rest ∙ ap entered back in ground (arith, whole, plain.0.0)
