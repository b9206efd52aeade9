-- ===== src/Menuconfig/Closing.antt =====
-- The dialog of menuconfig.py that asks before it ends does end it.
use auto_lfs_builder.Prelude.{ℕ, ◌≡◌, refl, sym, ap, ◌∙◌, List, [], ◌∷◌, ◌++◌}
use auto_lfs_builder.Text.{Text, lower_char}
use auto_lfs_builder.Menuconfig.Edit.{Key, char}
use auto_lfs_builder.Menuconfig.Session.{Files, Session, dialog_key}
use auto_lfs_builder.Menuconfig.Quit.{
  Mode, question, failure, keys_of, Quit, asks, stays, ends, not_saved, quit_start, quit_answer,
  quit_pressed, quit_keys, quit_dialog,
}

module _ {V : Type 0} (files : Files V) where
  -- A dialog that is closed reads no keys.
  quit_keys-stays :
      (keys : List (Key × ℕ)) (s : Session V) → quit_keys files keys (stays s) ≡ stays s
  unfolding quit_keys
  quit_keys-stays [] s = refl
  quit_keys-stays (key ∷ keys) s = refl

  quit_keys-ends :
      (keys : List (Key × ℕ)) (msg : Text) (s : Session V)
      → quit_keys files keys (ends msg s) ≡ ends msg s
  unfolding quit_keys
  quit_keys-ends [] msg s = refl
  quit_keys-ends (key ∷ keys) msg s = refl

  quit_keys-++ :
      (keys more : List (Key × ℕ)) (q : Quit V)
      → quit_keys files (keys ++ more) q ≡ quit_keys files more (quit_keys files keys q)
  unfolding quit_keys
  quit_keys-++ [] more q = refl
  quit_keys-++ ((c, height) ∷ keys) more (asks mode s) =
      quit_keys-++ keys more (quit_pressed files mode height s (dialog_key (keys_of mode) c))
  quit_keys-++ (key ∷ keys) more (stays s) = sym (quit_keys-stays more s)
  quit_keys-++ (key ∷ keys) more (ends msg s) = sym (quit_keys-ends more msg s)

  quit_keys-space_n :
      (h h' : ℕ) (mode : Mode) (s : Session V)
      → quit_keys files ((char b' ', h) ∷ (char b'n', h') ∷ []) (asks mode s)
        ≡ ends (not_saved s.conf_filename) s
  unfolding quit_keys quit_pressed quit_answer dialog_key lower_char
  quit_keys-space_n h h' question s = refl
  quit_keys-space_n h h' failure s = refl

  -- As long as the dialog is open, whatever was pressed before and however many saves have failed, the space
  -- and then the letter n end the program, with the session as it is then.
  pub quit_dialog-space_n :
      (keys : List (Key × ℕ)) (h h' : ℕ) (mode : Mode) (s t : Session V)
      → quit_dialog files keys s ≡ asks mode t
      → quit_dialog files (keys ++ (char b' ', h) ∷ (char b'n', h') ∷ []) s
        ≡ ends (not_saved t.conf_filename) t
  unfolding quit_dialog
  quit_dialog-space_n keys h h' mode s t still_open =
      quit_keys-++ keys ((char b' ', h) ∷ (char b'n', h') ∷ []) (quit_start files s)
      ∙ ap (quit_keys files ((char b' ', h) ∷ (char b'n', h') ∷ [])) still_open
      ∙ quit_keys-space_n h h' mode t
