-- ===== src/Menuconfig/Kept.antt =====
-- Properties of the state of menuconfig.py that the changes of values and the keys of the main loop
-- keep, when what these are made of keeps them.
use auto_lfs_builder.Prelude.{
  Option, none, if◌then◌else◌, ◌+◌, ◌%◌, length, ℕ, ◌≡◌, subst, List, [], ◌∷◌, length, Bool, not,
  ◌&&◌, ◌||◌, some, list_eq, nat_eq, get_elem?, on_if,
}
use auto_lfs_builder.Text.{Text}
use auto_lfs_builder.Menuconfig.Kconf.{Kconf, Item, Tri, tri_to_str, is_symbol, is_choice}
use auto_lfs_builder.Menuconfig.Navigate.{
  State, leave_menu, select_next_menu_entry, select_prev_menu_entry, select_last_menu_entry,
  select_first_menu_entry, resize_main, toggle_show_all, enter_menu,
}
use auto_lfs_builder.Menuconfig.Change.{set_val, set_sel_node_tri_val, is_among}
use auto_lfs_builder.Menuconfig.OnScreen.{some_steps, some-injective}
use auto_lfs_builder.Menuconfig.Kconf.{is_node}
use auto_lfs_builder.Menuconfig.Number.{check_valid}
use auto_lfs_builder.Menuconfig.ChangeNode.{
  is_text_kind, trimmed, enter_text, toggle_value, set_value_of, change_node, changeable, tri_index,
  is_y_mode_choice_sym,
}

-- What a property of the state has to survive: the moves, the windows that are resized, the modes, the
-- menus that are entered and left, and a value that is set.
pub record Rules {V : Type 0} (kconf : Kconf V) (P : State V → Type 0) : Type 0 where
  pub on_next : (s : State V) → P s → P (select_next_menu_entry s)
  pub on_prev : (s : State V) → P s → P (select_prev_menu_entry s)
  pub on_last : (s : State V) → P s → P (select_last_menu_entry s)
  pub on_first : (s : State V) → P s → P (select_first_menu_entry s)
  pub on_resize : (rows : ℕ) (s : State V) → P s → P (resize_main rows s)
  pub on_toggle : (s : State V) → P s → P (toggle_show_all kconf s)
  pub on_enter : (menu : ℕ) (s : State V) → P s → P (enter_menu kconf menu s).1
  pub on_leave : (s s' : State V) → P s → leave_menu kconf s ≡ some s' → P s'
  pub on_set :
      (sc : Item) (val : Text) (s s' : State V) → P s → set_val kconf sc val s ≡ some s' → P s'

module _ {V : Type 0} (kconf : Kconf V) (P : State V → Type 0) (rules : Rules kconf P) where
  pub set_sel_node_tri_val-kept :
      (t : Tri) (s s' : State V) → P s → set_sel_node_tri_val kconf t s ≡ some s' → P s'
  unfolding set_sel_node_tri_val
  set_sel_node_tri_val-kept t s s' h e =
      let (node, _, e1) = some_steps (get_elem? s.shown s.sel_node_i) _ e in
      let sc = kconf.item node in
      on_if (λ o. o ≡ some s' → P s')
        ((is_symbol sc || is_choice sc) && is_among t (kconf.assignable s.values sc))
        (λ _ e. rules.on_set sc (tri_to_str t) s s' h e) (λ _ e. subst P (some-injective e) h) e1

  enter_text-kept :
      (sc : Item) (answers : List (Option Text)) (s s' : State V)
      → P s
      → enter_text kconf sc answers s ≡ some s'
      → P s'
  unfolding enter_text
  enter_text-kept sc [] s s' h e = subst P (some-injective e) h
  enter_text-kept sc (none ∷ answers) s s' h e = subst P (some-injective e) h
  enter_text-kept sc (some text ∷ answers) s s' h e =
      let val = trimmed (kconf.orig_type sc) text in
      let (is_valid, _, e1) = some_steps (check_valid kconf s.values sc val) _ e in
      on_if (λ o. o ≡ some s' → P s') is_valid (λ _ e2. rules.on_set sc val s s' h e2)
        (λ _ e2. enter_text-kept sc answers s s' h e2) e1

  toggle_value-kept : (sc : Item) (s s' : State V) → P s → toggle_value kconf sc s ≡ some s' → P s'
  unfolding toggle_value
  toggle_value-kept sc s s' h e =
      let (i, _, e1) =
        some_steps (tri_index (kconf.tri_value s.values sc) (kconf.assignable s.values sc)) _ e in
      let (val, _, e2) =
        some_steps
          (get_elem? (kconf.assignable s.values sc)
            ((i + 1) % length (kconf.assignable s.values sc)))
          _ e1 in
      rules.on_set sc (tri_to_str val) s s' h e2

  set_value_of-kept :
      (sc : Item) (answers : List (Option Text)) (s s' : State V)
      → P s
      → set_value_of kconf sc answers s ≡ some s'
      → P s'
  unfolding set_value_of
  set_value_of-kept sc answers s s' h e =
      on_if (λ o. o ≡ some s' → P s') (is_text_kind (kconf.orig_type sc))
        (λ _ e1. enter_text-kept sc answers s s' h e1)
        (λ _ e1. by_values (kconf.assignable s.values sc) e1) e
    where
      by_values :
          (values : List Tri)
          → (elim values [
            | val ∷ [] ↦ set_val kconf sc (tri_to_str val) s
            | _ ↦ toggle_value kconf sc s
          ])
            ≡ some s'
          → P s'
      by_values [] q = toggle_value-kept sc s s' h q
      by_values (val ∷ []) q = rules.on_set sc (tri_to_str val) s s' h q
      by_values (val ∷ val' ∷ values) q = toggle_value-kept sc s s' h q

  pub change_node-kept :
      (node : ℕ) (answers : List (Option Text)) (s : State V) (r : Bool × State V)
      → P s
      → change_node kconf node answers s ≡ some r
      → P r.1
  unfolding change_node
  change_node-kept node answers s r h e =
      on_if (λ o. o ≡ some r → P r.1) (not (changeable kconf s.values node))
        (λ _ e1. subst (λ (q : Bool × State V). P q.1) (some-injective e1) h)
        (λ _ e1.
          let (changed, set, e2) =
            some_steps (set_value_of kconf (kconf.item node) answers s) _ e1 in
          let ok = set_value_of-kept (kconf.item node) answers s changed h set in
          let (left, last, e3) =
            some_steps
              (if is_y_mode_choice_sym kconf changed.values (kconf.item node)
                  && not (is_node (kconf.list node))
                then leave_menu kconf changed
                else some changed)
              _ e2 in
          subst (λ (q : Bool × State V). P q.1) (some-injective e3)
            (on_if (λ o. o ≡ some left → P left)
              (is_y_mode_choice_sym kconf changed.values (kconf.item node)
                && not (is_node (kconf.list node)))
              (λ _ q. rules.on_leave changed left ok q) (λ _ q. subst P (some-injective q) ok)
              last))
        e
