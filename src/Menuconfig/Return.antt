-- ===== src/Menuconfig/Return.antt =====
-- Leaving a menu of menuconfig.py that was entered.
use auto_lfs_builder.Prelude.{
  ℕ, ◌-◌, min, ◌≡◌, ◌≢◌, refl, ap, ◌∙◌, ◌∷◌, true, false, some, nat_eq, nat_beq_iff, ◌==◌, arith,
  on_if,
}
use auto_lfs_builder.Text.{is_nil}
use auto_lfs_builder.Menuconfig.Kconf.{Kconf, is_choice}
use auto_lfs_builder.Menuconfig.Shown.{shown_nodes, parent_menu}
use auto_lfs_builder.Menuconfig.Navigate.{State, index, enter_menu, leave_menu}
use auto_lfs_builder.Menuconfig.OnScreen.{IsOnScreen}

module _ {V : Type 0} (kconf : Kconf V) where
  -- The state in a menu that is no choice.
  abbrev inside_menu : ℕ → State V → State V
  inside_menu menu s = record s {
    parent_screen_rows = (s.sel_node_i - s.menu_scroll) ∷ s.parent_screen_rows;
    cur_menu = menu;
    shown = shown_nodes kconf s.values s.show_all menu;
    sel_node_i = 0;
    menu_scroll = 0;
  }

  enter_menu-inside :
      (menu : ℕ) (s : State V)
      → kconf.is_menuconfig menu ≡ true
      → is_choice (kconf.item menu) ≡ false
      → is_nil (shown_nodes kconf s.values s.show_all menu) ≡ false
      → enter_menu kconf menu s ≡ (true, inside_menu menu s)
  unfolding enter_menu
  enter_menu-inside menu s is_menu not_choice filled = rw (is_menu, not_choice, filled) refl

  -- The row is as it was.
  row_back :
      (s : State V)
      → IsOnScreen s
      → s.sel_node_i - min (s.sel_node_i - s.menu_scroll) (s.height - 1) ≡ s.menu_scroll
  row_back s h = omega arith

  leave_menu-inside :
      (menu : ℕ) (s : State V)
      → IsOnScreen s
      → menu ≢ kconf.top_node
      → parent_menu kconf menu ≡ some s.cur_menu
      → shown_nodes kconf s.values s.show_all s.cur_menu ≡ s.shown
      → index menu s.shown ≡ some s.sel_node_i
      → leave_menu kconf (inside_menu menu s) ≡ some s
  unfolding leave_menu
  leave_menu-inside menu s h below parent shown at =
      on_if (λ o. o ≡ some s) (menu == kconf.top_node)
        (λ q. absurd (below ((nat_beq_iff menu kconf.top_node).0 q)))
        (λ _. rw (parent, shown, at, row_back s h) refl)

  -- A menu that is no choice and is entered from the selected entry, when it is left at once: the
  -- display is as it was before, the selection and its row included.
  pub leave_menu-enter_menu :
      (menu : ℕ) (s : State V)
      → IsOnScreen s
      → kconf.is_menuconfig menu ≡ true
      → is_choice (kconf.item menu) ≡ false
      → is_nil (shown_nodes kconf s.values s.show_all menu) ≡ false
      → menu ≢ kconf.top_node
      → parent_menu kconf menu ≡ some s.cur_menu
      → shown_nodes kconf s.values s.show_all s.cur_menu ≡ s.shown
      → index menu s.shown ≡ some s.sel_node_i
      → leave_menu kconf (enter_menu kconf menu s).1 ≡ some s
  leave_menu-enter_menu menu s h is_menu not_choice filled below parent shown at =
      ap (λ r. leave_menu kconf r.1) (enter_menu-inside menu s is_menu not_choice filled)
      ∙ leave_menu-inside menu s h below parent shown at
