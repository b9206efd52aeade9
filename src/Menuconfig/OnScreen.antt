-- ===== src/Menuconfig/OnScreen.antt =====
-- The selected entry of the display is in the window.
use auto_lfs_builder.Prelude.{
  ℕ, zero, suc, get_elem?, nat_beq_iff, true, ◌+◌, ◌≤◌, ◌<◌, ◌≡◌, refl, ◌∙◌, List, [], ◌∷◌, length,
  drop, Bool, false, not, ◌&&◌, ◌||◌, Option, none, some, nat_eq, ◌==◌, contains, if◌then◌else◌,
  arith, Option-cases, on_if, on_option, on_list, subst, inl, inr,
}
use auto_lfs_builder.Text.{is_nil}
use auto_lfs_builder.Menuconfig.Kconf.{
  Kconf, Item, symbol, choice, menu_item, comment_item, is_choice,
}
use auto_lfs_builder.Menuconfig.Shown.{shown_nodes, parent_menu}
use auto_lfs_builder.Menuconfig.Navigate.{
  State, index, first_index, up_from, ◌>>=◌, select_next_menu_entry, select_prev_menu_entry,
  select_last_menu_entry, select_first_menu_entry, center_vertically, resize_main,
  select_selected_choice_sym, enter_menu, leave_menu, toggle_show_all, jump_in_menu, jump_to,
  jump_into,
}

-- An entry is selected, and its row is one of the window's.
pub record IsOnScreen {V : Type 0} (s : State V) : Type 0 where
  pub selected : s.sel_node_i < length s.shown
  pub below_top : s.menu_scroll ≤ s.sel_node_i
  pub above_bottom : s.sel_node_i < s.menu_scroll + s.height

pub index_lt : (n : ℕ) (nodes : List ℕ) (i : ℕ) → index n nodes ≡ some i → i < length nodes
unfolding index
index_lt n [] i h = cc h
index_lt n (x ∷ nodes) i h = elim (Option-cases (index n nodes)) [
  | inl q ↦ ground (arith, q)
  | inr (j, q) ↦ ground (arith, q, index_lt n nodes j q)
]

first_index_lt :
    (nodes shown : List ℕ) (i : ℕ) → first_index nodes shown ≡ some i → i < length shown
unfolding first_index
first_index_lt [] shown i h = cc h
first_index_lt (n ∷ nodes) shown i h =
    on_option (λ o. o ≡ some i → i < length shown) (index n shown)
      (λ q. first_index_lt nodes shown i) (λ j q e. index_lt n shown i (q ∙ e)) h

pub contains-get_elem? :
    (n i : ℕ) (nodes : List ℕ) → get_elem? nodes i ≡ some n → contains n nodes ≡ true
unfolding contains
contains-get_elem? n i [] h = cc h
contains-get_elem? n zero (x ∷ nodes) h = ground (arith, (nat_beq_iff n x).1 (cc h))
contains-get_elem? n (suc i) (x ∷ nodes) h = ground (arith, contains-get_elem? n i nodes h)

module _ {V : Type 0} where
  pub select_next_menu_entry-IsOnScreen :
      (s : State V) → IsOnScreen s → IsOnScreen (select_next_menu_entry s)
  unfolding select_next_menu_entry
  select_next_menu_entry-IsOnScreen s h = ground arith

  pub select_prev_menu_entry-IsOnScreen :
      (s : State V) → IsOnScreen s → IsOnScreen (select_prev_menu_entry s)
  unfolding select_prev_menu_entry
  select_prev_menu_entry-IsOnScreen s h = ground arith

  pub select_last_menu_entry-IsOnScreen :
      (s : State V) → IsOnScreen s → IsOnScreen (select_last_menu_entry s)
  unfolding select_last_menu_entry
  select_last_menu_entry-IsOnScreen s h = ground arith

  pub select_first_menu_entry-IsOnScreen :
      (s : State V) → IsOnScreen s → IsOnScreen (select_first_menu_entry s)
  unfolding select_first_menu_entry
  select_first_menu_entry-IsOnScreen s h = ground arith

  pub center_vertically-IsOnScreen :
      (s : State V)
      → s.sel_node_i < length s.shown
      → 1 ≤ s.height
      → IsOnScreen (center_vertically s)
  unfolding center_vertically
  center_vertically-IsOnScreen s h tall = omega arith

  pub resize_main-IsOnScreen :
      (rows : ℕ) (s : State V)
      → s.sel_node_i < length s.shown
      → s.menu_scroll ≤ s.sel_node_i
      → IsOnScreen (resize_main rows s)
  unfolding resize_main
  resize_main-IsOnScreen rows s h top = ground arith

-- What an action that returned did in its first step and in the rest.
pub some_steps {ℓ κ} :
    {A : Type ℓ} {B : Type κ} (first : Option A) (rest : A → Option B) {end : B}
    → (first >>= rest) ≡ some end
    → (between : A) × (first ≡ some between) × (rest between ≡ some end)
some_steps none rest ended = cc ended
some_steps (some between) rest ended = (between, refl, ended)

pub some-injective {ℓ} : {A : Type ℓ} {a b : A} → some a ≡ some b → a ≡ b
some-injective h = cc h

pub on_choice {ℓ κ} :
    {A : Type ℓ} (P : A → Type κ) (item : Item) {f : ℕ → A} {d : A}
    → ((c : ℕ) → item ≡ choice c → P (f c))
    → P d
    → P (elim item [ choice c ↦ f c | _ ↦ d ])
on_choice P (choice c) pf pd = pf c refl
on_choice P (symbol n) pf pd = pd
on_choice P menu_item pf pd = pd
on_choice P comment_item pf pd = pd

module _ {V : Type 0} (kconf : Kconf V) where
  pub select_selected_choice_sym-IsOnScreen :
      (s : State V) → IsOnScreen s → IsOnScreen (select_selected_choice_sym kconf s)
  unfolding select_selected_choice_sym
  select_selected_choice_sym-IsOnScreen s h =
      on_choice IsOnScreen (kconf.item s.cur_menu)
        (λ c _.
          on_option IsOnScreen (kconf.selection_nodes s.values c) (λ _. h)
            (λ nodes _.
              on_option IsOnScreen (first_index nodes s.shown) (λ _. h)
                (λ i e.
                  center_vertically-IsOnScreen (record s { sel_node_i = i })
                    (first_index_lt nodes s.shown i e) (omega arith))))
        h

  not_empty : (nodes : List ℕ) → is_nil nodes ≡ false → 0 < length nodes
  not_empty [] e = cc e
  not_empty (x ∷ nodes) e = omega arith

  pub enter_menu-IsOnScreen :
      (menu : ℕ) (s : State V) → IsOnScreen s → IsOnScreen (enter_menu kconf menu s).1
  unfolding enter_menu
  enter_menu-IsOnScreen menu s h =
      on_if (λ (r : Bool × State V). IsOnScreen r.1)
        (not (kconf.is_menuconfig menu) || is_nil (shown_nodes kconf s.values s.show_all menu))
        (λ _. h)
        (λ e.
          let filled = not_empty (shown_nodes kconf s.values s.show_all menu) (ground arith) in
          on_if IsOnScreen (is_choice (kconf.item menu))
            (λ _. select_selected_choice_sym-IsOnScreen _ (omega (arith, filled)))
            (λ _. omega (arith, filled)))

  pub leave_menu-IsOnScreen :
      (s s' : State V) → IsOnScreen s → leave_menu kconf s ≡ some s' → IsOnScreen s'
  unfolding leave_menu
  leave_menu-IsOnScreen s s' h e =
      on_if (λ o. o ≡ some s' → IsOnScreen s') (s.cur_menu == kconf.top_node)
        (λ _ e. subst IsOnScreen (some-injective e) h)
        (λ _ e.
          let (parent, _, e1) = some_steps (parent_menu kconf s.cur_menu) _ e in
          let nodes = shown_nodes kconf s.values s.show_all parent in
          let (i, found, e2) = some_steps (index s.cur_menu nodes) _ e1 in
          let inside = index_lt s.cur_menu nodes i found in
          subst IsOnScreen (some-injective e2) (
            on_list IsOnScreen s.parent_screen_rows
              (λ _.
                center_vertically-IsOnScreen
                  (record s { shown = nodes; sel_node_i = i; cur_menu = parent }) inside
                  (omega arith))
              (λ row rows _. omega (arith, inside))))
        e

  pub toggle_show_all-IsOnScreen :
      (s : State V) → IsOnScreen s → IsOnScreen (toggle_show_all kconf s)
  unfolding toggle_show_all
  toggle_show_all-IsOnScreen s h =
      let new_shown = shown_nodes kconf s.values (not s.show_all) s.cur_menu in
      on_option IsOnScreen (first_index (up_from s.sel_node_i s.shown) new_shown)
        (λ _.
          on_option IsOnScreen (first_index (drop (s.sel_node_i + 1) s.shown) new_shown)
            (λ _. omega arith)
            (λ i e. omega (arith, first_index_lt (drop (s.sel_node_i + 1) s.shown) new_shown i e)))
        (λ i e. omega (arith, first_index_lt (up_from s.sel_node_i s.shown) new_shown i e))

  -- An entry is selected in a window that has a row.
  HasEntry : State V → Type 0
  HasEntry s = (s.sel_node_i < length s.shown) × (1 ≤ s.height)

  toggle_show_all-HasEntry : (s : State V) → HasEntry s → HasEntry (toggle_show_all kconf s)
  unfolding toggle_show_all HasEntry
  toggle_show_all-HasEntry s h =
      let new_shown = shown_nodes kconf s.values (not s.show_all) s.cur_menu in
      on_option HasEntry (first_index (up_from s.sel_node_i s.shown) new_shown)
        (λ _.
          on_option HasEntry (first_index (drop (s.sel_node_i + 1) s.shown) new_shown) (λ _. h)
            (λ i e. (first_index_lt (drop (s.sel_node_i + 1) s.shown) new_shown i e, h.1)))
        (λ i e. (first_index_lt (up_from s.sel_node_i s.shown) new_shown i e, h.1))

  jump_in_menu-HasEntry :
      (menu node : ℕ) (s there : State V)
      → 1 ≤ s.height
      → jump_in_menu kconf menu node s ≡ some there
      → HasEntry there
  unfolding jump_in_menu HasEntry
  jump_in_menu-HasEntry menu node s there tall e =
      let all = not (contains node (shown_nodes kconf s.values s.show_all menu)) || s.show_all in
      let (i, found, e1) = some_steps (index node (shown_nodes kconf s.values all menu)) _ e in
      subst HasEntry (some-injective e1)
        (index_lt node (shown_nodes kconf s.values all menu) i found, tall)

  center_vertically-HasEntry : (s : State V) → HasEntry s → IsOnScreen (center_vertically s)
  unfolding HasEntry
  center_vertically-HasEntry s h = center_vertically-IsOnScreen s h.0 h.1

  pub jump_to-IsOnScreen :
      (node : ℕ) (s s' : State V) → 1 ≤ s.height → jump_to kconf node s ≡ some s' → IsOnScreen s'
  unfolding jump_to
  jump_to-IsOnScreen node s s' tall e =
      on_option (λ o. o ≡ some s' → IsOnScreen s') (jump_into kconf node)
        (λ _ e.
          let (menu, _, e1) = some_steps (parent_menu kconf node) _ e in
          let (there, found, e2) = some_steps (jump_in_menu kconf menu node s) _ e1 in
          subst IsOnScreen (some-injective e2)
            (center_vertically-HasEntry there (jump_in_menu-HasEntry menu node s there tall found)))
        (λ first _ e.
          let (there, found, e1) = some_steps (jump_in_menu kconf node first s) _ e in
          let entry = jump_in_menu-HasEntry node first s there tall found in
          let toggled =
            on_if HasEntry (not s.show_all && there.show_all)
              (λ _. toggle_show_all-HasEntry there entry) (λ _. entry) in
          let centered = center_vertically-HasEntry _ toggled in
          subst IsOnScreen (some-injective e1) (
            on_if IsOnScreen
              (is_choice (
                kconf.item
                  (center_vertically (
                    if not s.show_all && there.show_all
                    then toggle_show_all kconf there
                    else there)).cur_menu))
              (λ _. select_selected_choice_sym-IsOnScreen _ centered) (λ _. centered)))
        e
