-- ===== src/Menuconfig/Reach.antt =====
-- What the main loop of menuconfig.py keeps, whatever is pressed.
use auto_lfs_builder.Prelude.{
  Option, true, false, ◌||◌, contains, nat_eq, ℕ, ◌<◌, ◌≡◌, subst, List, [], ◌∷◌, length, Bool,
  true, false, not, ◌||◌, some, list_eq, nat_eq, get_elem?, arith, on_if,
}
use auto_lfs_builder.Text.{Text, is_nil}
use auto_lfs_builder.Menuconfig.Kconf.{Kconf}
use auto_lfs_builder.Menuconfig.Shown.{shown_nodes}
use auto_lfs_builder.Menuconfig.Navigate.{State, jump_to}
use auto_lfs_builder.Menuconfig.Change.{first_show_all, fresh, init}
use auto_lfs_builder.Menuconfig.OnScreen.{
  IsOnScreen, some_steps, some-injective, select_next_menu_entry-IsOnScreen,
  select_prev_menu_entry-IsOnScreen, select_last_menu_entry-IsOnScreen,
  select_first_menu_entry-IsOnScreen, resize_main-IsOnScreen, enter_menu-IsOnScreen,
  leave_menu-IsOnScreen, toggle_show_all-IsOnScreen, jump_to-IsOnScreen,
}
use auto_lfs_builder.Menuconfig.Edit.{Key}
use auto_lfs_builder.Menuconfig.Loop.{press, loaded}
use auto_lfs_builder.Menuconfig.Changed.{update_menu-IsOnScreen, set_val-IsOnScreen}
use auto_lfs_builder.Menuconfig.Kept.{Rules}
use auto_lfs_builder.Menuconfig.Pressed.{Keeps, press-Keeps}

module _ {V : Type 0} (kconf : Kconf V) where
  -- What happens in the loop: a key that is pressed, a node that is chosen in the dialog for jumps, and
  -- a configuration that is loaded. A step that raises has no state after it.
  pub data Step : State V → State V → Type 0 where
    pressed :
        (erase : Option ℕ) (rows : ℕ) (answers : List (Option Text)) (c : Key) (s s' : State V)
        → press kconf erase rows answers c s ≡ some s'
        → Step s s'
    jumped : (node : ℕ) (s s' : State V) → jump_to kconf node s ≡ some s' → Step s s'
    was_loaded :
        (v : V) (needs_save : Bool) (s s' : State V)
        → loaded kconf v needs_save s ≡ some s'
        → Step s s'

  -- The states after any number of steps.
  pub data Reach (start : State V) : State V → Type 0 where
    here : Reach start start
    further : {s s' : State V} → Reach start s → Step s s' → Reach start s'

  on_screen_rules : Rules kconf IsOnScreen
  on_screen_rules = record {
    on_next = select_next_menu_entry-IsOnScreen;
    on_prev = select_prev_menu_entry-IsOnScreen;
    on_last = select_last_menu_entry-IsOnScreen;
    on_first = select_first_menu_entry-IsOnScreen;
    on_resize = λ rows s h. resize_main-IsOnScreen rows s h.selected h.below_top;
    on_toggle = toggle_show_all-IsOnScreen kconf;
    on_enter = enter_menu-IsOnScreen kconf;
    on_leave = leave_menu-IsOnScreen kconf;
    on_set = set_val-IsOnScreen kconf;
  }

  loaded-Keeps :
      (v : V) (needs_save : Bool) (s : State V)
      → IsOnScreen s
      → Keeps kconf IsOnScreen on_screen_rules (loaded kconf v needs_save s)
  unfolding loaded
  loaded-Keeps v needs_save s h s' e =
      let (node, _, e1) = some_steps (get_elem? s.shown s.sel_node_i) _ e in
      update_menu-IsOnScreen kconf
        (record s {
          values = v;
          conf_changed = needs_save;
          show_all = not (contains node (shown_nodes kconf v s.show_all s.cur_menu)) || s.show_all;
        })
        s' (omega arith) e1

  Step-IsOnScreen : {s s' : State V} → IsOnScreen s → Step s s' → IsOnScreen s'
  Step-IsOnScreen h (pressed erase rows answers c s s' e) =
      press-Keeps kconf IsOnScreen on_screen_rules erase rows answers c s h s' e
  Step-IsOnScreen h (jumped node s s' e) = jump_to-IsOnScreen kconf node s s' (omega arith) e
  Step-IsOnScreen h (was_loaded v needs_save s s' e) = loaded-Keeps v needs_save s h s' e

  first_show_all-filled :
      (v : V) (show_all : Bool)
      → first_show_all kconf v ≡ some show_all
      → 0 < length (shown_nodes kconf v show_all kconf.top_node)
  unfolding first_show_all
  first_show_all-filled v show_all e =
      on_if (λ o. o ≡ some show_all → 0 < length (shown_nodes kconf v show_all kconf.top_node))
        (not (is_nil (shown_nodes kconf v false kconf.top_node)))
        (λ q e. filled false q (some-injective e))
        (λ _ e.
          on_if (λ o. o ≡ some show_all → 0 < length (shown_nodes kconf v show_all kconf.top_node))
            (not (is_nil (shown_nodes kconf v true kconf.top_node)))
            (λ q e. filled true q (some-injective e)) (λ _ e. cc e) e)
        e
    where
      some_node : (nodes : List ℕ) → not (is_nil nodes) ≡ true → 0 < length nodes
      some_node [] q = cc q
      some_node (x ∷ nodes) q = omega arith

      filled :
          (b : Bool)
          → not (is_nil (shown_nodes kconf v b kconf.top_node)) ≡ true
          → b ≡ show_all
          → 0 < length (shown_nodes kconf v show_all kconf.top_node)
      filled b q e =
          subst (λ a. 0 < length (shown_nodes kconf v a kconf.top_node)) e
            (some_node (shown_nodes kconf v b kconf.top_node) q)

  -- From the start of a menu that has something to configure, after any number of keys, of any kind and
  -- with any answers to their dialogs, of jumps to nodes and of loaded configurations that raise
  -- nothing: an entry is selected and its row is in the window, whatever the size of that becomes.
  pub init-IsOnScreen :
      (v : V) (changed show_all : Bool) (rows : ℕ) (s : State V)
      → first_show_all kconf v ≡ some show_all
      → Reach (init kconf v changed show_all rows) s
      → IsOnScreen s
  unfolding init
  init-IsOnScreen v changed show_all rows s e here =
      resize_main-IsOnScreen rows (fresh kconf v changed show_all)
        (first_show_all-filled v show_all e) (omega arith)
  init-IsOnScreen v changed show_all rows s e (further before step) =
      Step-IsOnScreen (init-IsOnScreen v changed show_all rows _ e before) step
