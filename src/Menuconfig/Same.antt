-- ===== src/Menuconfig/Same.antt =====
-- Moving through the menus of menuconfig.py changes no value.
use auto_lfs_builder.Prelude.{
  ℕ, ◌+◌, ◌-◌, ◌∙◌, ◌≡◌, refl, subst, drop, Bool, not, ◌&&◌, ◌||◌, some, nat_eq, ◌==◌, ltb, length,
  contains, if◌then◌else◌, on_if, on_option, on_list, get_elem?,
}
use auto_lfs_builder.Text.{is_nil}
use auto_lfs_builder.Menuconfig.Kconf.{Kconf, is_choice}
use auto_lfs_builder.Menuconfig.Shown.{shown_nodes, parent_menu}
use auto_lfs_builder.Menuconfig.Navigate.{
  State, index, first_index, up_from, select_next_menu_entry, select_prev_menu_entry,
  center_vertically, resize_main, select_selected_choice_sym, enter_menu, leave_menu,
  toggle_show_all, jump_in_menu, jump_to, jump_into,
}
use auto_lfs_builder.Menuconfig.Change.{update_menu}
use auto_lfs_builder.Menuconfig.OnScreen.{some_steps, some-injective, on_choice}

-- The values are those of the other state, and so is whether they have to be saved.
module _ {V : Type 0} where
  abbrev pub Same : State V → State V → Type 0
  Same s s' = (s'.values ≡ s.values) × (s'.conf_changed ≡ s.conf_changed)

  pub select_next_menu_entry-Same : (s : State V) → Same s (select_next_menu_entry s)
  unfolding select_next_menu_entry
  select_next_menu_entry-Same s =
      on_if (Same s) (ltb s.sel_node_i (length s.shown - 1)) (λ _. (refl, refl)) (λ _. (refl, refl))

  pub select_prev_menu_entry-Same : (s : State V) → Same s (select_prev_menu_entry s)
  unfolding select_prev_menu_entry
  select_prev_menu_entry-Same s =
      on_if (Same s) (ltb 0 s.sel_node_i) (λ _. (refl, refl)) (λ _. (refl, refl))

  pub center_vertically-Same : (s : State V) → Same s (center_vertically s)
  unfolding center_vertically
  center_vertically-Same s = (refl, refl)

  pub resize_main-Same : (rows : ℕ) (s : State V) → Same s (resize_main rows s)
  unfolding resize_main
  resize_main-Same rows s = (refl, refl)

module _ {V : Type 0} (kconf : Kconf V) where
  -- In every branch but where an action raises, the two fields are those of the state before.
  select_selected_choice_sym-Same : (s : State V) → Same s (select_selected_choice_sym kconf s)
  unfolding select_selected_choice_sym center_vertically
  select_selected_choice_sym-Same s =
      on_choice (Same s) (kconf.item s.cur_menu)
        (λ c _.
          on_option (Same s) (kconf.selection_nodes s.values c) (λ _. (refl, refl))
            (λ nodes _.
              on_option (Same s) (first_index nodes s.shown) (λ _. (refl, refl))
                (λ i _. (refl, refl))))
        (refl, refl)

  pub enter_menu-Same : (menu : ℕ) (s : State V) → Same s (enter_menu kconf menu s).1
  unfolding enter_menu
  enter_menu-Same menu s =
      on_if (λ (r : Bool × State V). Same s r.1)
        (not (kconf.is_menuconfig menu) || is_nil (shown_nodes kconf s.values s.show_all menu))
        (λ _. (refl, refl))
        (λ _.
          on_if (Same s) (is_choice (kconf.item menu)) (λ _. select_selected_choice_sym-Same _)
            (λ _. (refl, refl)))

  pub leave_menu-Same : (s s' : State V) → leave_menu kconf s ≡ some s' → Same s s'
  unfolding leave_menu center_vertically
  leave_menu-Same s s' e =
      on_if (λ o. o ≡ some s' → Same s s') (s.cur_menu == kconf.top_node)
        (λ _ e. subst (Same s) (some-injective e) (refl, refl))
        (λ _ e.
          let (parent, _, e1) = some_steps (parent_menu kconf s.cur_menu) _ e in
          let nodes = shown_nodes kconf s.values s.show_all parent in
          let (i, _, e2) = some_steps (index s.cur_menu nodes) _ e1 in
          subst (Same s) (some-injective e2) (
            on_list (Same s) s.parent_screen_rows (λ _. (refl, refl)) (λ row rows _. (refl, refl))))
        e

  pub update_menu-Same : (s s' : State V) → update_menu kconf s ≡ some s' → Same s s'
  unfolding update_menu
  update_menu-Same s s' e =
      let (sel_node, _, e1) = some_steps (get_elem? s.shown s.sel_node_i) _ e in
      let (i, _, e2) =
        some_steps (index sel_node (shown_nodes kconf s.values s.show_all s.cur_menu)) _ e1 in
      subst (Same s) (some-injective e2) (refl, refl)

  pub toggle_show_all-Same : (s : State V) → Same s (toggle_show_all kconf s)
  unfolding toggle_show_all
  toggle_show_all-Same s =
      let new_shown = shown_nodes kconf s.values (not s.show_all) s.cur_menu in
      on_option (Same s) (first_index (up_from s.sel_node_i s.shown) new_shown)
        (λ _.
          on_option (Same s) (first_index (drop (s.sel_node_i + 1) s.shown) new_shown)
            (λ _. (refl, refl)) (λ i _. (refl, refl)))
        (λ i _. (refl, refl))

  Same-trans : (s t u : State V) → Same s t → Same t u → Same s u
  Same-trans s t u h k = (k.0 ∙ h.0, k.1 ∙ h.1)

  jump_in_menu-Same :
      (menu node : ℕ) (s there : State V)
      → jump_in_menu kconf menu node s ≡ some there
      → Same s there
  unfolding jump_in_menu
  jump_in_menu-Same menu node s there e =
      let all = not (contains node (shown_nodes kconf s.values s.show_all menu)) || s.show_all in
      let (i, _, e1) = some_steps (index node (shown_nodes kconf s.values all menu)) _ e in
      subst (Same s) (some-injective e1) (refl, refl)

  shown_all : State V → State V → State V
  shown_all s there =
      if not s.show_all && there.show_all then toggle_show_all kconf there else there

  shown_all-Same : (s there : State V) → Same there (shown_all s there)
  unfolding shown_all
  shown_all-Same s there =
      on_if (Same there) (not s.show_all && there.show_all) (λ _. toggle_show_all-Same there)
        (λ _. (refl, refl))

  with_selection : State V → State V
  with_selection s =
      if is_choice (kconf.item s.cur_menu) then select_selected_choice_sym kconf s else s

  with_selection-Same : (s : State V) → Same s (with_selection s)
  unfolding with_selection
  with_selection-Same s =
      on_if (Same s) (is_choice (kconf.item s.cur_menu)) (λ _. select_selected_choice_sym-Same s)
        (λ _. (refl, refl))

  -- The end of a jump to the first entry of a menu.
  arrived-Same :
      (s there : State V) → Same there (with_selection (center_vertically (shown_all s there)))
  arrived-Same s there =
      let all = shown_all s there in
      let centered = center_vertically all in
      Same-trans there all (with_selection centered) (shown_all-Same s there) (
        Same-trans all centered (with_selection centered) (center_vertically-Same all)
          (with_selection-Same centered))

  pub jump_to-Same : (node : ℕ) (s s' : State V) → jump_to kconf node s ≡ some s' → Same s s'
  unfolding jump_to shown_all with_selection
  jump_to-Same node s s' e =
      on_option (λ o. o ≡ some s' → Same s s') (jump_into kconf node)
        (λ _ e.
          let (menu, _, e1) = some_steps (parent_menu kconf node) _ e in
          let (there, found, e2) = some_steps (jump_in_menu kconf menu node s) _ e1 in
          subst (Same s) (some-injective e2) (
            Same-trans s there (center_vertically there) (jump_in_menu-Same menu node s there found)
              (center_vertically-Same there)))
        (λ first _ e.
          let (there, found, e1) = some_steps (jump_in_menu kconf node first s) _ e in
          subst (Same s) (some-injective e1) (
            Same-trans s there (with_selection (center_vertically (shown_all s there)))
              (jump_in_menu-Same node first s there found) (arrived-Same s there)))
        e
