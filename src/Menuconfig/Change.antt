-- ===== src/Menuconfig/Change.antt =====
-- The changes of values in menuconfig.py, and the state that its main loop starts in.
use auto_lfs_builder.Prelude.{
  ℕ, ◌-◌, List, [], ◌∷◌, Bool, true, false, not, ◌&&◌, ◌||◌, Option, none, some, list_eq, nat_eq,
  list_beq, ◌==◌, if◌then◌else◌, get_elem?,
}
use auto_lfs_builder.Text.{Text, is_nil}
use auto_lfs_builder.Menuconfig.Kconf.{Kconf, Item, Tri, tri_to_str, is_symbol, is_choice}
use auto_lfs_builder.Menuconfig.Shown.{shown_nodes}
use auto_lfs_builder.Menuconfig.Navigate.{State, index, ◌>>=◌, resize_main}

-- `tri_val in tri_vals`
unfoldable pub is_among : Tri → List Tri → Bool
unfolding list_beq
is_among t [] = false
is_among t (x ∷ tri_vals) = (tri_to_str t == tri_to_str x) || is_among t tri_vals

module _ {V : Type 0} (kconf : Kconf V) where
  unfoldable pub update_menu : State V → Option (State V)
  unfolding shown_nodes index
  update_menu s =
      let shown = shown_nodes kconf s.values s.show_all s.cur_menu in
      do
        sel_node ← get_elem? s.shown s.sel_node_i
        i ← index sel_node shown
        some (record s {
          shown = shown;
          sel_node_i = i;
          menu_scroll = i - (s.sel_node_i - s.menu_scroll);
        })

  -- For a value that is a text.
  unfoldable pub set_val : Item → Text → State V → Option (State V)
  unfolding update_menu list_beq
  set_val sc val s =
      if val == kconf.str_value s.values sc
      then some s
      else update_menu (record s { values = kconf.set_value s.values sc val; conf_changed = true })

  unfoldable pub set_sel_node_tri_val : Tri → State V → Option (State V)
  unfolding set_val is_among
  set_sel_node_tri_val tri_val s = do
    node ← get_elem? s.shown s.sel_node_i
    let sc = kconf.item node
    if (is_symbol sc || is_choice sc) && is_among tri_val (kconf.assignable s.values sc)
        then set_val sc (tri_to_str tri_val) s
        else some s

  -- Where `menuconfig` looks for entries to show: whether it starts in show-all mode, or `none` where
  -- there is nothing to configure.
  unfoldable pub first_show_all : V → Option Bool
  unfolding shown_nodes
  first_show_all v =
      if not (is_nil (shown_nodes kconf v false kconf.top_node))
      then some false
      else if not (is_nil (shown_nodes kconf v true kconf.top_node))
      then some true
      else none

  abbrev pub fresh : V → Bool → Bool → State V
  fresh v changed show_all = record {
    values = v;
    cur_menu = kconf.top_node;
    shown = shown_nodes kconf v show_all kconf.top_node;
    sel_node_i = 0;
    menu_scroll = 0;
    show_all = show_all;
    parent_screen_rows = [];
    conf_changed = changed;
    height = 0;
  }

  -- The state after `_init`, for the rows that are left to the list.
  unfoldable pub init : V → Bool → Bool → ℕ → State V
  unfolding resize_main
  init v changed show_all rows = resize_main rows (fresh v changed show_all)
