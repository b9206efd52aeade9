-- ===== src/Menuconfig/Guarded.antt =====
-- What menuconfig.py does to a session, action by action, keeps its configuration safe.
use auto_lfs_builder.Prelude.{
  ℕ, ◌≡◌, refl, sym, subst, List, [], ◌∷◌, Option, none, some, nat_eq, ◌==◌, on_if, on_option,
}
use auto_lfs_builder.Text.{Text, codes}
use auto_lfs_builder.Menuconfig.Edit.{Key}
use auto_lfs_builder.Menuconfig.Kconf.{Kconf}
use auto_lfs_builder.Menuconfig.Navigate.{jump_to}
use auto_lfs_builder.Menuconfig.Loop.{press, loaded}
use auto_lfs_builder.Menuconfig.OnScreen.{some_steps, some-injective}
use auto_lfs_builder.Menuconfig.JumpDialog.{Found, searching, found, given_up, index_error}
use auto_lfs_builder.Menuconfig.Session.{
  Files, Session, load_failed, Pressed, ignored, resized, escaped, chosen, dialog_key, key_dialog,
  resize, menu_rows, needs_save,
}
use auto_lfs_builder.Menuconfig.Run.{
  Input, Outcome, going, load_file, load_dialog, jump_dialog, search_dialog, act_on_menu, go,
}
use auto_lfs_builder.Menuconfig.Saved.{
  contents, IsSaved, press-IsSaved, jump_to-IsSaved, loaded-IsSaved,
}
use auto_lfs_builder.Menuconfig.Unlost.{IsSafe, resize-IsSafe}
use auto_lfs_builder.Menuconfig.Unlost.{put_here}
use auto_lfs_builder.Menuconfig.Session.{needs_save}
use auto_lfs_builder.Menuconfig.Ended.{IsSafeOutcome}

on_pressed {ℓ κ} :
    {A : Type ℓ} (P : A → Type κ) (p : Pressed) {i r e : A} {f : ℕ → A}
    → P i
    → P r
    → P e
    → ((k : ℕ) → P (f k))
    → P (elim p [ ignored ↦ i | resized ↦ r | escaped ↦ e | chosen k ↦ f k ])
on_pressed P ignored hi hr he hf = hi
on_pressed P resized hi hr he hf = hr
on_pressed P escaped hi hr he hf = he
on_pressed P (chosen k) hi hr he hf = hf k

module _ {V : Type 0} where
  -- An action that returns leaves the session safe.
  abbrev pub Keeps : Option (Session V) → Type 0
  Keeps o = (s' : Session V) → o ≡ some s' → IsSafe s'

  pub some-Keeps : (s : Session V) → IsSafe s → Keeps (some s)
  some-Keeps s h s' e = subst IsSafe (some-injective e) h

  abbrev pub Ends : Option (Outcome V) → Type 0
  Ends o = (r : Outcome V) → o ≡ some r → IsSafeOutcome r

  pub some-Ends : (r : Outcome V) → IsSafeOutcome r → Ends (some r)
  some-Ends r h r' e = subst IsSafeOutcome (some-injective e) h

  pub going-Ends : (s : Session V) → IsSafe s → Ends (some (going s))
  unfolding IsSafeOutcome
  going-Ends s h r e = subst IsSafeOutcome (some-injective e) h

  pub go-Ends : (o : Option (Session V)) → Keeps o → Ends (go o)
  go-Ends none h = λ r e. cc e
  go-Ends (some s) h = going-Ends s (h s refl)

  key_dialog-IsSafe :
      (keys : Text) (inputs : List (Key × ℕ)) (s : Session V)
      → IsSafe s
      → IsSafe (key_dialog keys inputs s).1
  unfolding key_dialog
  key_dialog-IsSafe keys [] s h = h
  key_dialog-IsSafe keys ((c, height) ∷ inputs) s h =
      on_pressed (λ (r : Option ℕ × Session V). IsSafe r.1) (dialog_key keys c)
        (key_dialog-IsSafe keys inputs s h)
        (key_dialog-IsSafe keys inputs (resize height s) (resize-IsSafe height s h)) h (λ k. h)

module _ {V : Type 0} (kconf : Kconf V) (files : Files V) where
  load_file-IsSafe :
      (answers : List (Option Text)) (s : Session V)
      → IsSafe s
      → Keeps (load_file kconf files answers s)
  unfolding load_file IsSafe contents
  load_file-IsSafe [] s h = some-Keeps s h
  load_file-IsSafe (none ∷ answers) s h = some-Keeps s h
  load_file-IsSafe (some text ∷ answers) s h =
      let f = files.expand_user text in
      on_option Keeps (files.load_config s.events f)
        (λ _. load_file-IsSafe answers (record s { events = load_failed f ∷ s.events }) h)
        (λ v _ s' e.
          let (menu, put, e1) = some_steps (loaded kconf v (needs_save files v) s.menu) _ e in
          subst IsSafe (some-injective e1) (
            subst (λ o. IsSaved o menu) (sym (put_here f v (contents f s.events)))
              (loaded-IsSaved kconf v (needs_save files v) s.menu menu put)))

  pub load_dialog-IsSafe :
      (input : Input) (s : Session V) → IsSafe s → Keeps (load_dialog kconf files input s)
  unfolding load_dialog
  load_dialog-IsSafe input s h =
      let r = key_dialog (codes "oc") input.dialog_keys s in
      let asked = key_dialog-IsSafe (codes "oc") input.dialog_keys s h in
      on_if Keeps s.menu.conf_changed
        (λ _.
          on_option Keeps r.0 (λ _. some-Keeps r.1 asked)
            (λ k _.
              on_if Keeps (k == b'c') (λ _. some-Keeps r.1 asked)
                (λ _. load_file-IsSafe input.answers r.1 asked)))
        (λ _. load_file-IsSafe input.answers s h)

  pub jump_dialog-IsSafe :
      (target : Option ℕ) (input : Input) (s : Session V)
      → IsSafe s
      → Keeps (jump_dialog kconf files target input s)
  unfolding jump_dialog IsSafe
  jump_dialog-IsSafe none input s h = some-Keeps _ (resize-IsSafe input.screen_height s h)
  jump_dialog-IsSafe (some node) input s h = λ s' e.
      let (menu, put, e1) = some_steps (jump_to kconf node s.menu) _ e in
      subst IsSafe (some-injective e1) (
        resize-IsSafe input.screen_height (record s { menu = menu })
          (jump_to-IsSaved kconf (contents s.conf_filename s.events) node s.menu menu h put))

  pub search_dialog-IsSafe :
      (r : Found) (input : Input) (s : Session V)
      → IsSafe s
      → Keeps (search_dialog kconf files r input s)
  unfolding search_dialog
  search_dialog-IsSafe (searching t) input s h = jump_dialog-IsSafe none input s h
  search_dialog-IsSafe (found node) input s h = jump_dialog-IsSafe (some node) input s h
  search_dialog-IsSafe given_up input s h = jump_dialog-IsSafe none input s h
  search_dialog-IsSafe index_error input s h = λ s' e. cc e

  pub act_on_menu-IsSafe :
      (erase : Option ℕ) (input : Input) (s : Session V)
      → IsSafe s
      → Ends (act_on_menu kconf files erase input s)
  unfolding act_on_menu IsSafe IsSafeOutcome
  act_on_menu-IsSafe erase input s h r e =
      let rows = menu_rows s.show_help input.screen_height in
      let (menu, put, e1) =
        some_steps (press kconf erase rows input.answers input.key s.menu) _ e in
      subst IsSafeOutcome (some-injective e1) (
        press-IsSaved kconf (contents s.conf_filename s.events) erase rows input.answers input.key
          s.menu menu h put)
