-- ===== src/Menuconfig/Dialog.antt =====
-- The input dialog of menuconfig.py keeps its promise.
use auto_lfs_builder.Prelude.{
  ℕ, ◌≤◌, ◌≡◌, refl, sym, ap, ◌∙◌, List, [], ◌∷◌, length, Option, nat_eq, ◌==◌,
}
use auto_lfs_builder.Menuconfig.Edit.{
  Key, Box, key_resize, char, Answer, waits, entered, cancelled, dialog_loop, edit_text,
}
use auto_lfs_builder.Menuconfig.Editor.{edited, Promise, editing, result, abandoned, promised}
use auto_lfs_builder.Menuconfig.View.{edit_key-inside}
use auto_lfs_builder.Menuconfig.Typing.{take-drop}
use auto_lfs_builder.Menuconfig.Refines.{gap, if_map, edit_key-gap}

-- What of an answer is promised.
unfoldable pub promise : Answer → Promise
promise (waits box) = editing (gap box.s box.i)
promise (entered t) = result t
promise cancelled = abandoned

edit_text-gap :
    (erase : Option ℕ) (c : Key) (box : Box) (width : ℕ)
    → box.i ≤ length box.s
    → gap (edit_text erase c box width).s (edit_text erase c box width).i
      ≡ edited erase c (gap box.s box.i)
unfolding edit_text
edit_text-gap erase c box width h = edit_key-gap erase c box.s box.i h

edit_text-inside :
    (erase : Option ℕ) (c : Key) (box : Box) (width : ℕ)
    → box.i ≤ length box.s
    → (edit_text erase c box width).i ≤ length (edit_text erase c box width).s
unfolding edit_text
edit_text-inside erase c box width h = edit_key-inside erase c box.s box.i h

-- With the cursor in the text, the dialog does what is promised of it, whatever keys are read: each key
-- moves, deletes or inserts at the cursor as its specification says, wherever the text is
-- scrolled to, and Enter and Escape end it with the whole text and with none.
pub dialog_loop-promised :
    (erase : Option ℕ) (keys : List (Key × ℕ)) (box : Box)
    → box.i ≤ length box.s
    → promise (dialog_loop erase keys box) ≡ promised erase keys (gap box.s box.i)
unfolding dialog_loop promised promise
dialog_loop-promised erase [] box h = refl
dialog_loop-promised erase ((key_resize, width) ∷ keys) box h =
    dialog_loop-promised erase keys box h
dialog_loop-promised erase ((char c, width) ∷ keys) box h =
    if_map promise (c == 0x0a) (ap result (sym (take-drop box.i box.s))) (
      if_map promise (c == 0x1b) refl (
        dialog_loop-promised erase keys (edit_text erase (char c) box width)
          (edit_text-inside erase (char c) box width h)
        ∙ ap (promised erase keys) (edit_text-gap erase (char c) box width h)))
dialog_loop-promised erase ((c, width) ∷ keys) box h =
    dialog_loop-promised erase keys (edit_text erase c box width)
      (edit_text-inside erase c box width h)
    ∙ ap (promised erase keys) (edit_text-gap erase c box width h)
