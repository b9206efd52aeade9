-- ===== src/Menuconfig/Changed.antt =====
-- The changes of values and the keys of menuconfig.py keep the selected entry in the window.
use auto_lfs_builder.Prelude.{
  ◌≡◌, subst, true, some, list_eq, nat_eq, ◌==◌, get_elem?, arith, on_if,
}
use auto_lfs_builder.Text.{Text}
use auto_lfs_builder.Menuconfig.Kconf.{Kconf, Item}
use auto_lfs_builder.Menuconfig.Shown.{shown_nodes}
use auto_lfs_builder.Menuconfig.Navigate.{State, index}
use auto_lfs_builder.Menuconfig.Change.{update_menu, set_val}
use auto_lfs_builder.Menuconfig.OnScreen.{IsOnScreen, index_lt, some_steps, some-injective}

module _ {V : Type 0} (kconf : Kconf V) where
  pub update_menu-IsOnScreen :
      (s s' : State V) → IsOnScreen s → update_menu kconf s ≡ some s' → IsOnScreen s'
  unfolding update_menu
  update_menu-IsOnScreen s s' h e =
      let shown = shown_nodes kconf s.values s.show_all s.cur_menu in
      let (sel_node, _, e1) = some_steps (get_elem? s.shown s.sel_node_i) _ e in
      let (i, found, e2) = some_steps (index sel_node shown) _ e1 in
      let inside = index_lt sel_node shown i found in
      subst IsOnScreen (some-injective e2) (omega (arith, inside))

  pub set_val-IsOnScreen :
      (sc : Item) (val : Text) (s s' : State V)
      → IsOnScreen s
      → set_val kconf sc val s ≡ some s'
      → IsOnScreen s'
  unfolding set_val
  set_val-IsOnScreen sc val s s' h e =
      on_if (λ o. o ≡ some s' → IsOnScreen s') (val == kconf.str_value s.values sc)
        (λ _ e. subst IsOnScreen (some-injective e) h)
        (λ _ e.
          update_menu-IsOnScreen
            (record s { values = kconf.set_value s.values sc val; conf_changed = true }) s'
            (omega arith) e)
        e
