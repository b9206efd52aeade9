-- ===== src/Menuconfig/View.antt =====
-- What of an edit box is seen.
use auto_lfs_builder.Prelude.{
  ℕ, zero, suc, ◌+◌, ◌-◌, ◌≤◌, ◌<◌, ◌≡◌, refl, [], ◌∷◌, ◌++◌, length, length-append, take, drop,
  Option, arith, nat_eq,
}
use auto_lfs_builder.Text.{Text}
use auto_lfs_builder.Menuconfig.Edit.{
  Key, Box, key_left, key_right, key_up, key_down, key_home, key_end, key_npage, key_ppage,
  key_backspace, key_dc, key_resize, other_key, char, edit_text, edit_key, edit_char, delete_before,
  delete_word, insert_char, word_start, scroll_to,
}

-- The cursor is in the text and between the edges of the box, and five characters from either,
-- except at the ends of the text.
pub record IsInView (width : ℕ) (box : Box) : Type 0 where
  pub inside : box.i ≤ length box.s
  pub left : box.hscroll ≤ box.i
  pub right : box.i < box.hscroll + width
  pub left_margin : 0 < box.hscroll → box.hscroll + 5 ≤ box.i
  pub right_margin : box.hscroll + width ≤ length box.s → box.i + 5 < box.hscroll + width

pub length-take_le : (n : ℕ) (s : Text) → n ≤ length s → length (take n s) ≡ n
length-take_le zero s h = refl
length-take_le (suc n) [] h = omega (arith, h)
length-take_le (suc n) (c ∷ s) h = omega (arith, length-take_le n s (omega arith))

pub word_start-length : (s : Text) → word_start s ≤ length s
unfolding word_start
word_start-length [] = omega arith
word_start-length (c ∷ s) = ground (arith, word_start-length s)

at_front : (n : ℕ) (s t : Text) → n ≤ length s → n ≤ length (take n s ++ t)
at_front n s t h = omega (arith, length-append (take n s) t, length-take_le n s h)

delete_before-inside :
    (s : Text) (i : ℕ) → i ≤ length s → (delete_before s i).1 ≤ length (delete_before s i).0
unfolding delete_before
delete_before-inside s i h = ground (arith, at_front (i - 1) s (drop i s))

delete_word-inside :
    (s : Text) (i : ℕ) → i ≤ length s → (delete_word s i).1 ≤ length (delete_word s i).0
unfolding delete_word
delete_word-inside s i h =
    at_front (word_start (take i s)) s (drop i s)
      (omega (arith, word_start-length (take i s), length-take_le i s h))

insert_char-inside :
    (c : ℕ) (s : Text) (i : ℕ) → i ≤ length s → (insert_char c s i).1 ≤ length (insert_char c s i).0
unfolding insert_char
insert_char-inside c s i h =
    omega (arith, length-append (take i s) (c ∷ drop i s), length-take_le i s h)

edit_char-inside :
    (erase : Option ℕ) (c : ℕ) (s : Text) (i : ℕ)
    → i ≤ length s
    → (edit_char erase c s i).1 ≤ length (edit_char erase c s i).0
unfolding edit_char
edit_char-inside erase c s i h = ground (
  arith,
  delete_before-inside s i,
  delete_word-inside s i,
  insert_char-inside c s i,
  length-take_le i s,
)

pub edit_key-inside :
    (erase : Option ℕ) (c : Key) (s : Text) (i : ℕ)
    → i ≤ length s
    → (edit_key erase c s i).1 ≤ length (edit_key erase c s i).0
unfolding edit_key
edit_key-inside erase key_left s i h = omega arith
edit_key-inside erase key_right s i h = ground arith
edit_key-inside erase key_home s i h = omega arith
edit_key-inside erase key_end s i h = omega arith
edit_key-inside erase key_backspace s i h = delete_before-inside s i h
edit_key-inside erase key_dc s i h = at_front i s (drop (i + 1) s) h
edit_key-inside erase (char c) s i h = edit_char-inside erase c s i h
edit_key-inside erase key_up s i h = h
edit_key-inside erase key_down s i h = h
edit_key-inside erase key_npage s i h = h
edit_key-inside erase key_ppage s i h = h
edit_key-inside erase key_resize s i h = h
edit_key-inside erase (other_key n) s i h = h

scroll_to-IsInView :
    (width : ℕ) (s : Text) (i hscroll : ℕ)
    → 11 ≤ width
    → i ≤ length s
    → IsInView width (record { s = s; i = i; hscroll = scroll_to width s i hscroll })
unfolding scroll_to
scroll_to-IsInView width s i hscroll wide h = record {
  inside = h;
  left = ground arith;
  right = ground arith;
  left_margin = ground arith;
  right_margin = ground arith;
}

-- In a box of at least eleven columns, a cursor in the text stays in the text whatever key is
-- read, and it is shown: five characters from either edge, except at the ends of the text.
pub edit_text-IsInView :
    (erase : Option ℕ) (c : Key) (box : Box) (width : ℕ)
    → 11 ≤ width
    → box.i ≤ length box.s
    → IsInView width (edit_text erase c box width)
unfolding edit_text
edit_text-IsInView erase c box width wide h =
    scroll_to-IsInView width (edit_key erase c box.s box.i).0 (edit_key erase c box.s box.i).1
      box.hscroll wide (edit_key-inside erase c box.s box.i h)
