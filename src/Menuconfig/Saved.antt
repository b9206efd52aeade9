-- ===== src/Menuconfig/Saved.antt =====
-- What is in the files during a session of menuconfig.py, and that the menus know of each change.
use auto_lfs_builder.Prelude.{
  ℕ, ◌≡◌, refl, sym, ap, ◌∙◌, subst, List, [], ◌∷◌, Bool, true, false, not, ◌||◌, Option, none,
  some, list_eq, nat_eq, ◌==◌, contains, if◌then◌else◌, list_beq, on_if, get_elem?,
}
use auto_lfs_builder.Text.{Text}
use auto_lfs_builder.Menuconfig.Edit.{Key}
use auto_lfs_builder.Menuconfig.Kconf.{Kconf, Item}
use auto_lfs_builder.Menuconfig.Shown.{shown_nodes}
use auto_lfs_builder.Menuconfig.Navigate.{
  State, select_last_menu_entry, select_first_menu_entry, jump_to,
}
use auto_lfs_builder.Menuconfig.Change.{set_val}
use auto_lfs_builder.Menuconfig.Loop.{press, loaded}
use auto_lfs_builder.Menuconfig.OnScreen.{some_steps, some-injective}
use auto_lfs_builder.Menuconfig.Same.{
  Same, select_next_menu_entry-Same, select_prev_menu_entry-Same, resize_main-Same, enter_menu-Same,
  leave_menu-Same, update_menu-Same, toggle_show_all-Same, jump_to-Same,
}
use auto_lfs_builder.Menuconfig.Kept.{Rules}
use auto_lfs_builder.Menuconfig.Pressed.{press-Keeps}
use auto_lfs_builder.Menuconfig.Session.{
  Event, config_written, min_config_written, config_loaded, write_failed, load_failed,
}

module _ {V : Type 0} where
  -- The configuration of a file: the one last written to it, whole or as a minimal one, or loaded from
  -- it.
  unfoldable pub contents : Text → List (Event V) → Option V
  unfolding list_beq
  contents f [] = none
  contents f (config_written g v ∷ events) = if g == f then some v else contents f events
  contents f (min_config_written g v ∷ events) = if g == f then some v else contents f events
  contents f (config_loaded g v ∷ events) = if g == f then some v else contents f events
  contents f (write_failed g ∷ events) = contents f events
  contents f (load_failed g ∷ events) = contents f events

  -- Unless they are to be saved, the values are those given.
  unfoldable pub IsSaved : Option V → State V → Type 0
  IsSaved saved s = s.conf_changed ≡ false → saved ≡ some s.values

  pub Same-IsSaved :
      (saved : Option V) (s s' : State V) → Same s s' → IsSaved saved s → IsSaved saved s'
  unfolding IsSaved
  Same-IsSaved saved s s' same h unchanged = h (sym same.1 ∙ unchanged) ∙ ap some (sym same.0)

  changed-IsSaved : (saved : Option V) (s : State V) → s.conf_changed ≡ true → IsSaved saved s
  unfolding IsSaved
  changed-IsSaved saved s changed unchanged = cc (changed, unchanged)

module _ {V : Type 0} (kconf : Kconf V) (saved : Option V) where
  set_val-IsSaved :
      (sc : Item) (val : Text) (s s' : State V)
      → IsSaved saved s
      → set_val kconf sc val s ≡ some s'
      → IsSaved saved s'
  unfolding set_val
  set_val-IsSaved sc val s s' h e =
      on_if (λ o. o ≡ some s' → IsSaved saved s') (val == kconf.str_value s.values sc)
        (λ _ e. subst (IsSaved saved) (some-injective e) h)
        (λ _ e.
          let marked : State V = record s {
            values = kconf.set_value s.values sc val;
            conf_changed = true;
          } in
          Same-IsSaved saved marked s' (update_menu-Same kconf marked s' e)
            (changed-IsSaved saved marked refl))
        e

  saved_rules : Rules kconf (IsSaved saved)
  unfolding select_last_menu_entry select_first_menu_entry
  saved_rules = record {
    on_next = λ s. Same-IsSaved saved s _ (select_next_menu_entry-Same s);
    on_prev = λ s. Same-IsSaved saved s _ (select_prev_menu_entry-Same s);
    on_last = λ s. Same-IsSaved saved s _ (refl, refl);
    on_first = λ s. Same-IsSaved saved s _ (refl, refl);
    on_resize = λ rows s. Same-IsSaved saved s _ (resize_main-Same rows s);
    on_toggle = λ s. Same-IsSaved saved s _ (toggle_show_all-Same kconf s);
    on_enter = λ menu s. Same-IsSaved saved s _ (enter_menu-Same kconf menu s);
    on_leave = λ s s' h e. Same-IsSaved saved s s' (leave_menu-Same kconf s s' e) h;
    on_set = set_val-IsSaved;
  }

  -- No key changes a value without a note that it has to be saved.
  pub press-IsSaved :
      (erase : Option ℕ) (rows : ℕ) (answers : List (Option Text)) (c : Key) (s s' : State V)
      → IsSaved saved s
      → press kconf erase rows answers c s ≡ some s'
      → IsSaved saved s'
  press-IsSaved erase rows answers c s s' h e =
      press-Keeps kconf (IsSaved saved) saved_rules erase rows answers c s h s' e

  pub jump_to-IsSaved :
      (node : ℕ) (s s' : State V)
      → IsSaved saved s
      → jump_to kconf node s ≡ some s'
      → IsSaved saved s'
  jump_to-IsSaved node s s' h e = Same-IsSaved saved s s' (jump_to-Same kconf node s s' e) h

module _ {V : Type 0} (kconf : Kconf V) where
  -- What is loaded is what is saved.
  pub loaded-IsSaved :
      (v : V) (needs_save : Bool) (s s' : State V)
      → loaded kconf v needs_save s ≡ some s'
      → IsSaved (some v) s'
  unfolding loaded IsSaved
  loaded-IsSaved v needs_save s s' e =
      let (node, _, e1) = some_steps (get_elem? s.shown s.sel_node_i) _ e in
      let put : State V = record s {
        values = v;
        conf_changed = needs_save;
        show_all = not (contains node (shown_nodes kconf v s.show_all s.cur_menu)) || s.show_all;
      } in
      Same-IsSaved (some v) put s' (update_menu-Same kconf put s' e1) (λ _. refl)
