-- ===== src/Menuconfig/Loop.antt =====
-- The loop of `_menuconfig` of menuconfig.py, which gives each key to its action, and the end of
-- `_load_dialog`.
use auto_lfs_builder.Prelude.{
  ℕ, zero, suc, List, Bool, not, ◌&&◌, ◌||◌, Option, some, nat_eq, ◌==◌, contains, if◌then◌else◌,
  get_elem?,
}
use auto_lfs_builder.Text.{Text, codes}
use auto_lfs_builder.Menuconfig.Edit.{
  Key, key_left, key_right, key_up, key_down, key_home, key_end, key_npage, key_ppage,
  key_backspace, key_dc, key_resize, other_key, char, is_erase,
}
use auto_lfs_builder.Menuconfig.Kconf.{Kconf, tri_n, tri_m, tri_y}
use auto_lfs_builder.Menuconfig.Shown.{shown_nodes}
use auto_lfs_builder.Menuconfig.Navigate.{
  State, ◌>>=◌, select_next_menu_entry, select_prev_menu_entry, select_last_menu_entry,
  select_first_menu_entry, resize_main, enter_menu, leave_menu, toggle_show_all,
}
use auto_lfs_builder.Menuconfig.Change.{update_menu, set_sel_node_tri_val}
use auto_lfs_builder.Menuconfig.ChangeNode.{change_node}

-- `_PG_JUMP`
abbrev pub pg_jump : ℕ
pg_jump = 6

abbrev pub times {ℓ} : {A : Type ℓ} → ℕ → (A → A) → A → A
times zero f a = a
times (suc n) f a = times n f (f a)

abbrev pub one_of : ℕ → Text → Bool
one_of c chars = contains c chars

module _ {V : Type 0} (kconf : Kconf V) where
  -- The space: change the node if that is possible, or enter it.
  unfoldable pub change_or_enter : List (Option Text) → State V → Option (State V)
  unfolding change_node enter_menu
  change_or_enter answers s = do
    sel_node ← get_elem? s.shown s.sel_node_i
    (is_changed, changed) ← change_node kconf sel_node answers s
    some (if is_changed then changed else (enter_menu kconf sel_node changed).1)

  -- Enter: enter the node if that is possible, or change it.
  unfoldable pub enter_or_change : List (Option Text) → State V → Option (State V)
  unfolding change_node enter_menu
  enter_or_change answers s = do
    sel_node ← get_elem? s.shown s.sel_node_i
    if (enter_menu kconf sel_node s).0
        then some (enter_menu kconf sel_node s).1
        else (do (is_changed, changed) ← change_node kconf sel_node answers s; some changed)

  -- ESC in the top menu asks whether to quit.
  unfoldable pub leave_or_ask : ℕ → State V → Option (State V)
  unfolding leave_menu
  leave_or_ask c s =
      if c == 0x1b && s.cur_menu == kconf.top_node then some s else leave_menu kconf s

  -- The keys for saving, quitting and names leave this state as it is; after a dialog of the whole
  -- screen, or another help window, the windows are resized.
  unfoldable pub press_char :
      Option ℕ → (rows : ℕ) → List (Option Text) → ℕ → State V → Option (State V)
  unfolding contains is_erase select_next_menu_entry select_prev_menu_entry select_last_menu_entry
      select_first_menu_entry change_or_enter enter_or_change set_sel_node_tri_val leave_or_ask
      resize_main toggle_show_all
  press_char erase rows answers c s =
      if one_of c (codes "jJ")
      then some (select_next_menu_entry s)
      else if one_of c (codes "kK")
      then some (select_prev_menu_entry s)
      else if c == 0x04
      then some (times pg_jump select_next_menu_entry s)
      else if c == 0x15
      then some (times pg_jump select_prev_menu_entry s)
      else if c == b'G'
      then some (select_last_menu_entry s)
      else if c == b'g'
      then some (select_first_menu_entry s)
      else if c == b' '
      then change_or_enter answers s
      else if one_of c (codes "\nlL")
      then enter_or_change answers s
      else if one_of c (codes "nN")
      then set_sel_node_tri_val kconf tri_n s
      else if one_of c (codes "mM")
      then set_sel_node_tri_val kconf tri_m s
      else if one_of c (codes "yY")
      then set_sel_node_tri_val kconf tri_y s
      else if is_erase erase c || c == 0x1b || one_of c (codes "hH")
      then leave_or_ask c s
      else if one_of c (codes "/?fF")
      then some (resize_main rows s)
      else if one_of c (codes "aA")
      then some (toggle_show_all kconf s)
      else some s

  -- The state after a key, where the loop goes on. What the input dialog returns, and the rows that
  -- are left to the list, are given with the key.
  unfoldable pub press :
      Option ℕ → (rows : ℕ) → List (Option Text) → Key → State V → Option (State V)
  unfolding press_char select_next_menu_entry select_prev_menu_entry select_last_menu_entry
      select_first_menu_entry enter_or_change leave_menu resize_main
  press erase rows answers key_resize s = some (resize_main rows s)
  press erase rows answers key_down s = some (select_next_menu_entry s)
  press erase rows answers key_up s = some (select_prev_menu_entry s)
  press erase rows answers key_npage s = some (times pg_jump select_next_menu_entry s)
  press erase rows answers key_ppage s = some (times pg_jump select_prev_menu_entry s)
  press erase rows answers key_end s = some (select_last_menu_entry s)
  press erase rows answers key_home s = some (select_first_menu_entry s)
  press erase rows answers key_right s = enter_or_change answers s
  press erase rows answers key_left s = leave_menu kconf s
  press erase rows answers key_backspace s = leave_menu kconf s
  press erase rows answers (char c) s = press_char erase rows answers c s
  press erase rows answers key_dc s = some s
  press erase rows answers (other_key n) s = some s

  -- A configuration was loaded: its values, and whether they need to be saved.
  unfoldable pub loaded : V → Bool → State V → Option (State V)
  unfolding shown_nodes contains update_menu
  loaded v needs_save s = do
    sel_node ← get_elem? s.shown s.sel_node_i
    let is_shown = contains sel_node (shown_nodes kconf v s.show_all s.cur_menu)
    update_menu kconf
        (record s { values = v; conf_changed = needs_save; show_all = not is_shown || s.show_all })
