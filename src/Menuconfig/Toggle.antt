-- ===== src/Menuconfig/Toggle.antt =====
-- Show-all mode of menuconfig.py and the selected entry.
use auto_lfs_builder.Prelude.{
  ℕ, zero, suc, ◌≡◌, refl, sym, subst, ap, ◌∙◌, List, [], ◌∷◌, ◌++◌, Bool, true, false, not, ◌&&◌,
  ◌||◌, some, nat_eq, nat_beq_iff, ◌==◌, if◌then◌else◌, arith, Bool-cases, inl, inr, contains,
  contains-append, on_option, on_if, get_elem?,
}
use auto_lfs_builder.Text.{is_nil}
use auto_lfs_builder.Menuconfig.Kconf.{
  Kconf, Item, Nodes, no_node, node_at, symbol, choice, menu_item, comment_item, is_choice, is_node,
  is_symbol,
}
use auto_lfs_builder.Menuconfig.Shown.{shown_nodes, shown_from, visible, choice_shown, symbols_of}
use auto_lfs_builder.Menuconfig.Navigate.{State, index, first_index, up_from, toggle_show_all}
use auto_lfs_builder.Menuconfig.OnScreen.{contains-get_elem?, some-injective}

index-contains :
    (n : ℕ) (nodes : List ℕ) → contains n nodes ≡ true → (i : ℕ) × (index n nodes ≡ some i)
unfolding contains index
index-contains n [] h = cc h
index-contains n (x ∷ nodes) h = elim (Bool-cases (n == x)) [
  | inl q ↦ (0, rw q refl)
  | inr q ↦ let (i, e) = index-contains n nodes (ground (arith, h, q)) in (suc i, rw (q, e) refl)
]

get_elem?-index :
    (n : ℕ) (nodes : List ℕ) (i : ℕ) → index n nodes ≡ some i → get_elem? nodes i ≡ some n
unfolding index
get_elem?-index n [] i h = cc h
get_elem?-index n (x ∷ nodes) i h = elim (Bool-cases (n == x)) [
  | inl q ↦
      subst (λ j. get_elem? (x ∷ nodes) j ≡ some n) (some-injective (rw q at h))
        (ap some (sym ((nat_beq_iff n x).0 q)))
  | inr q ↦
      on_option (λ o. o ≡ some i → get_elem? (x ∷ nodes) i ≡ some n) (index n nodes) (λ _ e. cc e)
        (λ j found e.
          subst (λ k. get_elem? (x ∷ nodes) k ≡ some n) (some-injective e)
            (get_elem?-index n nodes j found))
        (rw q at h)
]

up_from-head :
    (i : ℕ) (nodes : List ℕ) (n : ℕ)
    → get_elem? nodes i ≡ some n
    → (rest : List ℕ) × (up_from i nodes ≡ n ∷ rest)
unfolding up_from
up_from-head i [] n h = cc h
up_from-head zero (x ∷ nodes) n h = ([], ap (λ y. y ∷ []) (cc h))
up_from-head (suc i) (x ∷ nodes) n h =
    let (rest, e) = up_from-head i nodes n h in (rest ++ x ∷ [], ap (λ xs. xs ++ x ∷ []) e)

-- What stands in an entry, below it and after it.
contains-entry :
    (n x : ℕ) (is_below : Bool) (children rest : List ℕ)
    → contains n (x ∷ ((if is_below then children else []) ++ rest))
      ≡ ((n == x) || ((is_below && contains n children) || contains n rest))
unfolding contains
contains-entry n x true children rest = ap (λ b. (n == x) || b) (contains-append n children rest)
contains-entry n x false children rest = refl

or_true : (b : Bool) → (b || true) ≡ true
or_true true = refl
or_true false = refl

or_last : (a b c : Bool) → c ≡ true → (a || (b || c)) ≡ true
or_last a b c h = ground arith

-- What is shown of an entry, the entries below it and those after it is one of them.
was_inside :
    (n x : ℕ) (is_visible has_list is_menu is_sym : Bool) (children rest : List ℕ)
    → contains n (
        if is_visible || false
        then x ∷ ((if has_list && not is_menu then children else []) ++ rest)
        else if has_list && is_sym
        then (if is_nil children then rest else x ∷ ((if is_menu then [] else children) ++ rest))
        else rest)
      ≡ true
    → ((n == x) || (((has_list && not is_menu) && contains n children) || contains n rest)) ≡ true
unfolding contains
was_inside n x true has_list is_menu is_sym children rest h =
    sym (contains-entry n x (has_list && not is_menu) children rest) ∙ h
was_inside n x false true is_menu true [] rest h =
    or_last (n == x) ((true && not is_menu) && contains n []) (contains n rest) h
was_inside n x false true true true (c ∷ children) rest h = h
was_inside n x false true false true (c ∷ children) rest h =
    sym (contains-entry n x true (c ∷ children) rest) ∙ h
was_inside n x false true is_menu false children rest h =
    or_last (n == x) ((true && not is_menu) && contains n children) (contains n rest) h
was_inside n x false false is_menu is_sym children rest h =
    or_last (n == x) (false && contains n children) (contains n rest) h

still_inside :
    (here in_children in_children' in_rest in_rest' has_list is_menu : Bool)
    → (in_children ≡ true → in_children' ≡ true)
    → (in_rest ≡ true → in_rest' ≡ true)
    → (here || (((has_list && not is_menu) && in_children) || in_rest)) ≡ true
    → (here || (((has_list && not is_menu) && in_children') || in_rest')) ≡ true
still_inside here in_children in_children' in_rest in_rest' has_list is_menu f g h = ground arith

first_index-head :
    (n : ℕ) (rest nodes : List ℕ) (i : ℕ) {from : List ℕ}
    → from ≡ n ∷ rest
    → index n nodes ≡ some i
    → first_index from nodes ≡ some i
unfolding first_index
first_index-head n rest nodes i up e =
    ap (λ xs. first_index xs nodes) up
    ∙ on_option (λ o. o ≡ some i) (index n nodes) (λ q. cc (q, e)) (λ j q. cc (q, e))

module _ {V : Type 0} (kconf : Kconf V) where
  -- What is shown is shown in show-all mode too.
  shown_from-all :
      (v : V) (n : ℕ) (nodes : Nodes)
      → contains n (shown_from kconf v false nodes) ≡ true
      → contains n (shown_from kconf v true nodes) ≡ true
  unfolding shown_from
  shown_from-all v n no_node h = h
  shown_from-all v n (node_at x list next) h =
      on_if (λ nodes. contains n nodes ≡ true) (visible kconf v x || true)
        (λ _.
          contains-entry n x (is_node list && not (kconf.is_menuconfig x))
            (shown_from kconf v true list) (shown_from kconf v true next)
          ∙ still_inside (n == x) (contains n (shown_from kconf v false list)) _
              (contains n (shown_from kconf v false next)) _ (is_node list) (kconf.is_menuconfig x)
              (shown_from-all v n list) (shown_from-all v n next)
              (was_inside n x (visible kconf v x) (is_node list) (kconf.is_menuconfig x)
                (is_symbol (kconf.item x)) (shown_from kconf v false list)
                (shown_from kconf v false next) h))
        (λ q. cc (q, or_true (visible kconf v x)))

  shown_nodes-all :
      (v : V) (n here : ℕ)
      → is_choice (kconf.item here) ≡ false
      → contains n (shown_nodes kconf v false here) ≡ true
      → contains n (shown_nodes kconf v true here) ≡ true
  unfolding shown_nodes
  shown_nodes-all v n here other h = by_item (kconf.item here) other h
    where
      by_item :
          (item : Item)
          → is_choice item ≡ false
          → contains n (elim item [
            | choice c ↦
                choice_shown kconf v false here
                  (kconf.choice_nodes c)
                  (symbols_of kconf.item (shown_from kconf v false (kconf.list here)))
            | _ ↦ shown_from kconf v false (kconf.list here)
          ])
            ≡ true
          → contains n (elim item [
            | choice c ↦
                choice_shown kconf v true here
                  (kconf.choice_nodes c)
                  (symbols_of kconf.item (shown_from kconf v true (kconf.list here)))
            | _ ↦ shown_from kconf v true (kconf.list here)
          ])
            ≡ true
      by_item (choice c) other h = cc other
      by_item (symbol c) other h = shown_from-all v n (kconf.list here) h
      by_item menu_item other h = shown_from-all v n (kconf.list here) h
      by_item comment_item other h = shown_from-all v n (kconf.list here) h

  toggle_show_all-found :
      (s : State V) (n : ℕ)
      → get_elem? s.shown s.sel_node_i ≡ some n
      → contains n (shown_nodes kconf s.values (not s.show_all) s.cur_menu) ≡ true
      → get_elem? (toggle_show_all kconf s).shown (toggle_show_all kconf s).sel_node_i ≡ some n
  unfolding toggle_show_all first_index
  toggle_show_all-found s n at found =
      let new_shown = shown_nodes kconf s.values (not s.show_all) s.cur_menu in
      let (rest, up) = up_from-head s.sel_node_i s.shown n at in
      let (i, e) = index-contains n new_shown found in
      let first : first_index (up_from s.sel_node_i s.shown) new_shown ≡ some i =
        first_index-head n rest new_shown i up e in
      on_option (λ (t : State V). get_elem? t.shown t.sel_node_i ≡ some n)
        (first_index (up_from s.sel_node_i s.shown) new_shown) (λ q. cc (q, first))
        (λ j q. get_elem?-index n new_shown j (cc (q, first, e)))

  -- In a menu that is no choice, with its visible entries shown: turning show-all mode on leaves the
  -- same entry selected.
  pub toggle_show_all-selected :
      (s : State V) (n : ℕ)
      → is_choice (kconf.item s.cur_menu) ≡ false
      → s.show_all ≡ false
      → s.shown ≡ shown_nodes kconf s.values false s.cur_menu
      → get_elem? s.shown s.sel_node_i ≡ some n
      → get_elem? (toggle_show_all kconf s).shown (toggle_show_all kconf s).sel_node_i ≡ some n
  toggle_show_all-selected s n other off shown at = toggle_show_all-found s n at (
      subst (λ b. contains n (shown_nodes kconf s.values (not b) s.cur_menu) ≡ true) (sym off)
        (shown_nodes-all s.values n s.cur_menu other (
          subst (λ nodes. contains n nodes ≡ true) shown
            (contains-get_elem? n s.sel_node_i s.shown at))))
