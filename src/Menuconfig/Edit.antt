-- ===== src/Menuconfig/Edit.antt =====
-- docs/jhalfs/menu/menuconfig.py: `_edit_text` and the loop of `_input_dialog`.
use auto_lfs_builder.Prelude.{
  ℕ, suc, ◌+◌, ◌-◌, List, [], ◌∷◌, ◌++◌, length, take, drop, Bool, true, false, not, ◌&&◌, ◌||◌,
  Option, none, some, ltb, leb, min, nat_eq, ◌==◌, if◌then◌else◌,
}
use auto_lfs_builder.Text.{Text, is_nil, is_space, lstrip_by}

-- What `_getch_compat` returns: a character, or an integer of curses.
pub data Key : Type 0 where
  key_left key_right key_up key_down key_home key_end key_npage key_ppage : Key
  key_backspace key_dc key_resize : Key
  other_key : ℕ → Key
  char : ℕ → Key

-- `_SCROLL_OFFSET`
abbrev pub scroll_offset : ℕ
scroll_offset = 5

-- The edit box: the text, the cursor, and the index of the leftmost character that is shown.
pub record Box : Type 0 where
  pub s : Text
  pub i : ℕ
  pub hscroll : ℕ

-- `\w`, for ASCII
unfoldable pub is_word : ℕ → Bool
is_word c =
    (leb b'0' c && leb c b'9')
    || (leb b'A' c && leb c b'Z')
    || (leb b'a' c && leb c b'z')
    || c == b'_'

-- `(?:\w*|\W)\s*$`, at the start of a text
unfoldable pub is_word_tail : Text → Bool
unfolding is_word lstrip_by is_space
is_word_tail [] = true
is_word_tail (c ∷ t) =
    is_nil (lstrip_by is_space (lstrip_by is_word (c ∷ t)))
    || (not (is_word c) && is_nil (lstrip_by is_space t))

-- Where the first match of it starts.
unfoldable pub word_start : Text → ℕ
unfolding is_word_tail
word_start [] = 0
word_start (c ∷ t) = let rest = word_start t in if is_word_tail (c ∷ t) then 0 else suc rest

-- The branches, of which each gives the text and the cursor.
unfoldable pub delete_before : Text → ℕ → Text × ℕ
delete_before s i = if ltb 0 i then (take (i - 1) s ++ drop i s, i - 1) else (s, i)

unfoldable pub delete_word : Text → ℕ → Text × ℕ
unfolding word_start
delete_word s i = let new_i = word_start (take i s) in (take new_i s ++ drop i s, new_i)

unfoldable pub insert_char : ℕ → Text → ℕ → Text × ℕ
insert_char c s i = (take i s ++ c ∷ drop i s, i + 1)

-- `_ERASE_CHAR` is one character; `none` is the empty text.
unfoldable pub is_erase : Option ℕ → ℕ → Bool
is_erase none c = false
is_erase (some e) c = c == e

unfoldable pub edit_char : Option ℕ → ℕ → Text → ℕ → Text × ℕ
unfolding is_erase delete_before delete_word insert_char
edit_char erase c s i =
    if c == 0x01
    then (s, 0)
    else if c == 0x05
    then (s, length s)
    else if is_erase erase c
    then delete_before s i
    else if c == 0x17
    then delete_word s i
    else if c == 0x0b
    then (take i s, i)
    else if c == 0x15
    then (drop i s, 0)
    else insert_char c s i

unfoldable pub edit_key : Option ℕ → Key → Text → ℕ → Text × ℕ
unfolding edit_char delete_before
edit_key erase key_left s i = (s, i - 1)
edit_key erase key_right s i = (s, (if ltb i (length s) then i + 1 else i))
edit_key erase key_home s i = (s, 0)
edit_key erase key_end s i = (s, length s)
edit_key erase key_backspace s i = delete_before s i
edit_key erase key_dc s i = (take i s ++ drop (i + 1) s, i)
edit_key erase (char c) s i = edit_char erase c s i
edit_key erase key_up s i = (s, i)
edit_key erase key_down s i = (s, i)
edit_key erase key_npage s i = (s, i)
edit_key erase key_ppage s i = (s, i)
edit_key erase key_resize s i = (s, i)
edit_key erase (other_key n) s i = (s, i)

-- The scroll for a cursor. A difference below 0 stands under a `max` with 0, or, in the second branch,
-- does not occur.
unfoldable pub scroll_to : ℕ → Text → ℕ → ℕ → ℕ
scroll_to width s i hscroll =
    if ltb i (hscroll + scroll_offset)
    then i - scroll_offset
    else if leb (hscroll + width) (i + scroll_offset)
    then min (i + scroll_offset + 1 - width) (length s + 1 - width)
    else hscroll

unfoldable pub edit_text : Option ℕ → Key → Box → ℕ → Box
unfolding edit_key scroll_to
edit_text erase c box width =
    let (s, i) = edit_key erase c box.s box.i in
    record { s = s; i = i; hscroll = scroll_to width s i box.hscroll }

-- What `_input_dialog` returns, or its box while it waits for a key.
pub data Answer : Type 0 where
  waits : Box → Answer
  entered : Text → Answer
  cancelled : Answer

-- The box that is shown first.
unfoldable pub first_box : Text → ℕ → Box
first_box initial_text width = record {
  s = initial_text;
  i = length initial_text;
  hscroll = length initial_text + 1 - width;
}

-- The loop, over the keys that are read, each with the width of the box after it.
unfoldable pub dialog_loop : Option ℕ → List (Key × ℕ) → Box → Answer
unfolding edit_text
dialog_loop erase [] box = waits box
dialog_loop erase ((key_resize, width) ∷ keys) box = dialog_loop erase keys box
dialog_loop erase ((c, width) ∷ keys) box =
    let rest = dialog_loop erase keys (edit_text erase c box width) in
    if is_char 0x0a c then entered box.s else if is_char 0x1b c then cancelled else rest
  where
    is_char : ℕ → Key → Bool
    is_char n (char m) = m == n
    is_char n _ = false

unfoldable pub input_dialog : Option ℕ → Text → ℕ → List (Key × ℕ) → Answer
unfolding dialog_loop first_box
input_dialog erase initial_text width keys = dialog_loop erase keys (first_box initial_text width)
