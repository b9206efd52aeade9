-- ===== src/Menuconfig/Navigate.antt =====
-- The state of the main display of menuconfig.py, and the moves in and between its menus.
use auto_lfs_builder.Prelude.{
  ℕ, zero, suc, ◌+◌, ◌-◌, ◌/◌, min, List, [], ◌∷◌, ◌++◌, length, drop, Bool, true, false, not, ◌&&◌,
  ◌||◌, Option, none, some, nat_eq, ◌==◌, contains, if◌then◌else◌, ltb, leb,
}
use auto_lfs_builder.Text.{is_nil}
use auto_lfs_builder.Menuconfig.Edit.{scroll_offset}
use auto_lfs_builder.Menuconfig.Kconf.{Kconf, no_node, node_at, choice, is_choice, is_menu}
use auto_lfs_builder.Menuconfig.Shown.{shown_nodes, parent_menu}

-- An action of the display; `none` is an exception: `index` finds nothing, or a parent is `None`.
infixl 5 ◌>>=◌
abbrev pub ◌>>=◌ {ℓ κ} : {A : Type ℓ} {B : Type κ} → Option A → (A → Option B) → Option B
none >>= f = none
some a >>= f = f a

-- The global variables, with the height of `_menu_win`. The last element of `_parent_screen_rows`
-- is the first here.
pub record State (V : Type 0) : Type 0 where
  pub values : V
  pub cur_menu : ℕ
  pub shown : List ℕ
  pub sel_node_i : ℕ
  pub menu_scroll : ℕ
  pub show_all : Bool
  pub parent_screen_rows : List ℕ
  pub conf_changed : Bool
  pub height : ℕ

-- `nodes.index(n)`
unfoldable pub index : ℕ → List ℕ → Option ℕ
index n [] = none
index n (x ∷ nodes) =
    let rest = index n nodes in
    if n == x then some 0 else elim rest [ none ↦ none | some i ↦ some (suc i) ]

-- The index in the second list of the first node of the first list that is in it.
unfoldable pub first_index : List ℕ → List ℕ → Option ℕ
unfolding index
first_index [] shown = none
first_index (n ∷ nodes) shown =
    let rest = first_index nodes shown in elim (index n shown) [ none ↦ rest | some i ↦ some i ]

-- `nodes[i::-1]`
unfoldable pub up_from : ℕ → List ℕ → List ℕ
up_from i [] = []
up_from zero (x ∷ nodes) = x ∷ []
up_from (suc i) (x ∷ nodes) = up_from i nodes ++ x ∷ []

abbrev pub max_scroll : List ℕ → ℕ → ℕ
max_scroll nodes height = length nodes - height

module _ {V : Type 0} where
  unfoldable pub select_next_menu_entry : State V → State V
  select_next_menu_entry s =
      if ltb s.sel_node_i (length s.shown - 1)
      then (let i = s.sel_node_i + 1 in
          record s {
            sel_node_i = i;
            menu_scroll =
                if leb (s.menu_scroll + s.height) (i + scroll_offset)
                  && ltb s.menu_scroll (max_scroll s.shown s.height)
                then s.menu_scroll + 1
                else s.menu_scroll;
          })
      else s

  unfoldable pub select_prev_menu_entry : State V → State V
  select_prev_menu_entry s =
      if ltb 0 s.sel_node_i
      then (let i = s.sel_node_i - 1 in
          record s {
            sel_node_i = i;
            menu_scroll =
                if ltb i (s.menu_scroll + scroll_offset) then s.menu_scroll - 1 else s.menu_scroll;
          })
      else s

  unfoldable pub select_last_menu_entry : State V → State V
  select_last_menu_entry s = record s {
    sel_node_i = length s.shown - 1;
    menu_scroll = max_scroll s.shown s.height;
  }

  unfoldable pub select_first_menu_entry : State V → State V
  select_first_menu_entry s = record s { sel_node_i = 0; menu_scroll = 0 }

  unfoldable pub center_vertically : State V → State V
  center_vertically s = record s {
    menu_scroll = min (s.sel_node_i - s.height / 2) (max_scroll s.shown s.height);
  }

  -- The end of `_resize_main`, for the rows that are left to the list.
  unfoldable pub resize_main : ℕ → State V → State V
  resize_main rows s =
      let height = if leb 1 rows then rows else 1 in
      record s {
        height = height;
        menu_scroll =
            if leb height (s.sel_node_i - s.menu_scroll)
            then s.sel_node_i + 1 - height
            else s.menu_scroll;
      }

module _ {V : Type 0} (kconf : Kconf V) where
  unfoldable pub select_selected_choice_sym : State V → State V
  unfolding first_index center_vertically
  select_selected_choice_sym s = elim (kconf.item s.cur_menu) [
    | choice c ↦ elim (kconf.selection_nodes s.values c) [
      | none ↦ s
      | some nodes ↦ elim (first_index nodes s.shown) [
        | none ↦ s
        | some i ↦ center_vertically (record s { sel_node_i = i })
      ]
    ]
    | _ ↦ s
  ]

  -- Whether the menu was entered, and the state after it.
  unfoldable pub enter_menu : ℕ → State V → Bool × State V
  unfolding shown_nodes select_selected_choice_sym
  enter_menu menu s =
      let shown_sub = shown_nodes kconf s.values s.show_all menu in
      let entered : State V = record s {
        parent_screen_rows = (s.sel_node_i - s.menu_scroll) ∷ s.parent_screen_rows;
        cur_menu = menu;
        shown = shown_sub;
        sel_node_i = 0;
        menu_scroll = 0;
      } in
      if not (kconf.is_menuconfig menu) || is_nil shown_sub then (false, s) else (
        true,
        (if is_choice (kconf.item menu) then select_selected_choice_sym entered else entered),
      )

  unfoldable pub leave_menu : State V → Option (State V)
  unfolding parent_menu shown_nodes index center_vertically
  leave_menu s = if s.cur_menu == kconf.top_node then some s else (do
    parent ← parent_menu kconf s.cur_menu
    i ← index s.cur_menu (shown_nodes kconf s.values s.show_all parent)
    let left : State V = record s {
      shown = shown_nodes kconf s.values s.show_all parent;
      sel_node_i = i;
      cur_menu = parent;
    }
    some (elim s.parent_screen_rows [
      | [] ↦ center_vertically left
      | row ∷ rows ↦ record left {
        parent_screen_rows = rows;
        menu_scroll = i - min row (s.height - 1);
      }
    ]))

  unfoldable pub toggle_show_all : State V → State V
  unfolding shown_nodes first_index up_from
  toggle_show_all s =
      let old_row = s.sel_node_i - s.menu_scroll in
      let new_shown = shown_nodes kconf s.values (not s.show_all) s.cur_menu in
      let toggled = λ (i : ℕ). record s {
        show_all = not s.show_all;
        shown = new_shown;
        sel_node_i = i;
        menu_scroll = i - old_row;
      } in
      elim (first_index (up_from s.sel_node_i s.shown) new_shown) [
        | some i ↦ toggled i
        | none ↦ elim (first_index (drop (s.sel_node_i + 1) s.shown) new_shown) [
          | some i ↦ toggled i
          | none ↦ record s { show_all = true }
        ]
      ]

  -- Whether to jump into the node, and to its first entry.
  unfoldable pub jump_into : ℕ → Option ℕ
  jump_into node =
      if is_choice (kconf.item node) || is_menu (kconf.item node)
      then elim (kconf.list node) [ no_node ↦ none | node_at first list next ↦ some first ]
      else none

  -- From the clearing of the rows to the index of the node, in a menu.
  unfoldable pub jump_in_menu : (menu node : ℕ) → State V → Option (State V)
  unfolding shown_nodes index contains
  jump_in_menu menu node s =
      let visible_nodes = shown_nodes kconf s.values s.show_all menu in
      let show_all = not (contains node visible_nodes) || s.show_all in
      let shown = shown_nodes kconf s.values show_all menu in
      do
        i ← index node shown
        some (record s {
          parent_screen_rows = [];
          cur_menu = menu;
          shown = shown;
          show_all = show_all;
          sel_node_i = i;
        })

  unfoldable pub jump_to : ℕ → State V → Option (State V)
  unfolding jump_into jump_in_menu parent_menu toggle_show_all center_vertically
      select_selected_choice_sym
  jump_to node s = elim (jump_into node) [
    | some first ↦ do
      there ← jump_in_menu node first s
      let toggled = if not s.show_all && there.show_all then toggle_show_all there else there
      let centered = center_vertically toggled
      some (
          if is_choice (kconf.item centered.cur_menu)
          then select_selected_choice_sym centered
          else centered)
    | none ↦ do
      menu ← parent_menu kconf node
      there ← jump_in_menu menu node s
      some (center_vertically there)
  ]
