-- ===== src/Menuconfig/Quit.antt =====
-- The dialog of menuconfig.py that asks whether to save before it ends.
use auto_lfs_builder.Prelude.{ℕ, List, [], ◌∷◌, ◌++◌, not, none, some, nat_eq, ◌==◌, if◌then◌else◌}
use auto_lfs_builder.Text.{Text, codes}
use auto_lfs_builder.Menuconfig.Edit.{Key}
use auto_lfs_builder.Menuconfig.Session.{
  Files, Session, Pressed, ignored, resized, escaped, chosen, dialog_key, resize, try_save, is_set,
}

-- The dialog that is open: the question, or the message of a save that failed.
pub data Mode : Type 0 where
  question failure : Mode

abbrev pub keys_of : Mode → Text
keys_of question = codes "ync"
keys_of failure = codes " \n"

-- Whether a dialog is open still, the main loop goes on, or the program ends with a text.
pub data Quit (V : Type 0) : Type 0 where
  asks : Mode → Session V → Quit V
  stays : Session V → Quit V
  ends : Text → Session V → Quit V

abbrev pub no_changes : Text → Text
no_changes conf_filename = codes "No changes to save (for '" ++ conf_filename ++ codes "')"

abbrev pub not_saved : Text → Text
not_saved conf_filename = codes "Configuration (" ++ conf_filename ++ codes ") was not saved"

module _ {V : Type 0} (files : Files V) where
  unfoldable pub quit_start : Session V → Quit V
  quit_start s =
      if not s.menu.conf_changed then ends (no_changes s.conf_filename) s else asks question s

  -- An empty message ends nothing and reports nothing.
  unfoldable pub quit_saving : Session V → Quit V
  unfolding try_save
  quit_saving s =
      let (msg, tried) = try_save files s.conf_filename s in
      elim msg [
        | none ↦ asks failure tried
        | some text ↦ if is_set files (some text) then ends text tried else asks question tried
      ]

  -- What the question is answered with.
  unfoldable pub quit_answer : ℕ → Session V → Quit V
  unfolding quit_saving
  quit_answer c s =
      if c == b'c'
      then stays s
      else if c == b'y'
      then quit_saving s
      else if c == b'n'
      then ends (not_saved s.conf_filename) s
      else asks question s

  unfoldable pub quit_pressed : Mode → ℕ → Session V → Pressed → Quit V
  unfolding quit_answer
  quit_pressed mode height s ignored = asks mode s
  quit_pressed mode height s resized = asks mode (resize height s)
  quit_pressed question height s escaped = stays s
  quit_pressed question height s (chosen c) = quit_answer c s
  quit_pressed failure height s escaped = asks question s
  quit_pressed failure height s (chosen c) = asks question s

  -- The keys that are pressed while a dialog is open, each with the height of the screen.
  unfoldable pub quit_keys : List (Key × ℕ) → Quit V → Quit V
  unfolding quit_pressed dialog_key
  quit_keys [] q = q
  quit_keys ((c, height) ∷ keys) (asks mode s) =
      quit_keys keys (quit_pressed mode height s (dialog_key (keys_of mode) c))
  quit_keys (key ∷ keys) q = q

  unfoldable pub quit_dialog : List (Key × ℕ) → Session V → Quit V
  unfolding quit_keys quit_start
  quit_dialog keys s = quit_keys keys (quit_start s)
