-- ===== src/Menuconfig/Ended.antt =====
-- The dialog of menuconfig.py that asks before it ends.
use auto_lfs_builder.Prelude.{
  ℕ, ◌≡◌, refl, List, [], ◌∷◌, not, some, nat_eq, ◌==◌, on_if, on_option, ◌⊎◌, inl, inr, arith,
}
use auto_lfs_builder.Text.{Text}
use auto_lfs_builder.Menuconfig.Edit.{Key}
use auto_lfs_builder.Menuconfig.Session.{
  Files, Session, Pressed, ignored, resized, escaped, chosen, dialog_key, try_save, is_set,
}
use auto_lfs_builder.Menuconfig.Quit.{
  Mode, question, failure, keys_of, Quit, asks, stays, ends, not_saved, quit_start, quit_saving,
  quit_answer, quit_pressed, quit_keys, quit_dialog,
}
use auto_lfs_builder.Menuconfig.Run.{Outcome, going, quit, outcome}
use auto_lfs_builder.Menuconfig.Saved.{contents, IsSaved}
use auto_lfs_builder.Menuconfig.Unlost.{
  IsSafe, HasSaved, resize-IsSafe, try_save-IsSafe, try_save-HasSaved,
}

module _ {V : Type 0} where
  -- The end of a program that has lost nothing: the text says that the configuration was not saved, or
  -- the file has it.
  unfoldable pub IsToldOrSaved : Text → Session V → Type 0
  IsToldOrSaved msg s =
      (msg ≡ not_saved s.conf_filename) ⊎ (contents s.conf_filename s.events ≡ some s.menu.values)

  IsSafeQuit : Quit V → Type 0
  IsSafeQuit (asks mode s) = IsSafe s
  IsSafeQuit (stays s) = IsSafe s
  IsSafeQuit (ends msg s) = IsToldOrSaved msg s

  unfoldable pub IsSafeOutcome : Outcome V → Type 0
  IsSafeOutcome (going s) = IsSafe s
  IsSafeOutcome (quit msg s) = IsToldOrSaved msg s

  outcome-IsSafe : (q : Quit V) → IsSafeQuit q → IsSafeOutcome (outcome q)
  unfolding IsSafeQuit IsSafeOutcome
  outcome-IsSafe (asks mode s) h = h
  outcome-IsSafe (stays s) h = h
  outcome-IsSafe (ends msg s) h = h

module _ {V : Type 0} (files : Files V) where
  quit_start-IsSafe : (s : Session V) → IsSafe s → IsSafeQuit (quit_start files s)
  unfolding quit_start IsSafeQuit IsToldOrSaved IsSafe IsSaved
  quit_start-IsSafe s h =
      on_if IsSafeQuit (not s.menu.conf_changed) (λ q. inr (h (ground (arith, q)))) (λ _. h)

  quit_saving-IsSafe : (s : Session V) → IsSafe s → IsSafeQuit (quit_saving files s)
  unfolding quit_saving IsSafeQuit IsToldOrSaved HasSaved
  quit_saving-IsSafe s h =
      let f = s.conf_filename in
      let tried = try_save files f s in
      let kept = try_save-IsSafe files f s h in
      on_option IsSafeQuit tried.0 (λ _. kept)
        (λ text e.
          on_if IsSafeQuit (is_set files (some text)) (λ _. inr (try_save-HasSaved files s text e))
            (λ _. kept))

  quit_answer-IsSafe : (c : ℕ) (s : Session V) → IsSafe s → IsSafeQuit (quit_answer files c s)
  unfolding quit_answer IsSafeQuit IsToldOrSaved
  quit_answer-IsSafe c s h =
      on_if IsSafeQuit (c == b'c') (λ _. h)
        (λ _.
          on_if IsSafeQuit (c == b'y') (λ _. quit_saving-IsSafe s h)
            (λ _. on_if IsSafeQuit (c == b'n') (λ _. inl refl) (λ _. h)))

  quit_pressed-IsSafe :
      (mode : Mode) (height : ℕ) (s : Session V) (p : Pressed)
      → IsSafe s
      → IsSafeQuit (quit_pressed files mode height s p)
  unfolding quit_pressed IsSafeQuit
  quit_pressed-IsSafe mode height s ignored h = h
  quit_pressed-IsSafe mode height s resized h = resize-IsSafe height s h
  quit_pressed-IsSafe question height s escaped h = h
  quit_pressed-IsSafe question height s (chosen c) h = quit_answer-IsSafe c s h
  quit_pressed-IsSafe failure height s escaped h = h
  quit_pressed-IsSafe failure height s (chosen c) h = h

  quit_keys-IsSafe :
      (keys : List (Key × ℕ)) (q : Quit V) → IsSafeQuit q → IsSafeQuit (quit_keys files keys q)
  unfolding quit_keys IsSafeQuit
  quit_keys-IsSafe [] q h = h
  quit_keys-IsSafe ((c, height) ∷ keys) (asks mode s) h =
      let p = dialog_key (keys_of mode) c in
      quit_keys-IsSafe keys (quit_pressed files mode height s p)
        (quit_pressed-IsSafe mode height s p h)
  quit_keys-IsSafe (key ∷ keys) (stays s) h = h
  quit_keys-IsSafe (key ∷ keys) (ends msg s) h = h

  pub quit_dialog-IsSafe :
      (keys : List (Key × ℕ)) (s : Session V)
      → IsSafe s
      → IsSafeOutcome (outcome (quit_dialog files keys s))
  unfolding quit_dialog
  quit_dialog-IsSafe keys s h =
      outcome-IsSafe _ (quit_keys-IsSafe keys (quit_start files s) (quit_start-IsSafe s h))
