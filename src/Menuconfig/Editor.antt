-- ===== src/Menuconfig/Editor.antt =====
-- What the edit box of menuconfig.py promises: a text with a gap in it, and what each key does there.
use auto_lfs_builder.Prelude.{
  ℕ, List, [], ◌∷◌, ◌++◌, take, drop, Option, nat_eq, ◌==◌, if◌then◌else◌,
}
use auto_lfs_builder.Text.{Text, is_nil, is_space, rstrip_by}
use auto_lfs_builder.Menuconfig.Edit.{
  Key, key_left, key_right, key_up, key_down, key_home, key_end, key_npage, key_ppage,
  key_backspace, key_dc, key_resize, other_key, char, is_word, is_erase,
}

-- The text before the cursor and the text from it on.
pub record Gap : Type 0 where
  pub before : Text
  pub after : Text

-- A text without its last character, and that character.
unfoldable pub front : Text → Text
front [] = []
front (c ∷ s) = if is_nil s then [] else c ∷ front s

unfoldable pub last_of : Text → Text
last_of [] = []
last_of (c ∷ s) = if is_nil s then c ∷ [] else last_of s

-- A text without the word at its end, or, where none is there, without one character.
unfoldable pub without_last : Text → Text
unfolding rstrip_by front last_of
without_last u = if is_nil (rstrip_by is_word (last_of u)) then rstrip_by is_word u else front u

-- The white space at the end goes first.
unfoldable pub without_word : Text → Text
unfolding rstrip_by without_last
without_word s = without_last (rstrip_by is_space s)

unfoldable pub edited_char : Option ℕ → ℕ → Gap → Gap
unfolding is_erase front without_word
edited_char erase c g =
    if c == 0x01
    then record { before = []; after = g.before ++ g.after }
    else if c == 0x05
    then record { before = g.before ++ g.after; after = [] }
    else if is_erase erase c
    then record g { before = front g.before }
    else if c == 0x17
    then record g { before = without_word g.before }
    else if c == 0x0b
    then record g { after = [] }
    else if c == 0x15
    then record g { before = [] }
    else record g { before = g.before ++ c ∷ [] }

unfoldable pub edited : Option ℕ → Key → Gap → Gap
unfolding front last_of edited_char
edited erase key_left g = record { before = front g.before; after = last_of g.before ++ g.after }
edited erase key_right g = record { before = g.before ++ take 1 g.after; after = drop 1 g.after }
edited erase key_home g = record { before = []; after = g.before ++ g.after }
edited erase key_end g = record { before = g.before ++ g.after; after = [] }
edited erase key_backspace g = record g { before = front g.before }
edited erase key_dc g = record g { after = drop 1 g.after }
edited erase (char c) g = edited_char erase c g
edited erase key_up g = g
edited erase key_down g = g
edited erase key_npage g = g
edited erase key_ppage g = g
edited erase key_resize g = g
edited erase (other_key n) g = g

-- The dialog: the gap that is edited, or how it ended.
pub data Promise : Type 0 where
  editing : Gap → Promise
  result : Text → Promise
  abandoned : Promise

-- Enter gives the whole text, and Escape none; a change of the window's size changes nothing.
unfoldable pub promised_key : Key → Gap → Promise → Promise
promised_key (char c) g rest =
    if c == 0x0a then result (g.before ++ g.after) else if c == 0x1b then abandoned else rest
promised_key _ g rest = rest

unfoldable pub promised : Option ℕ → List (Key × ℕ) → Gap → Promise
unfolding edited promised_key
promised erase [] g = editing g
promised erase ((c, width) ∷ keys) g = promised_key c g (promised erase keys (edited erase c g))
