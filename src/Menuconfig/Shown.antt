-- ===== src/Menuconfig/Shown.antt =====
-- `_visible`, `_parent_menu` and `_shown_nodes` of menuconfig.py.
use auto_lfs_builder.Prelude.{
  ℕ, List, [], ◌∷◌, ◌++◌, Bool, false, not, ◌&&◌, ◌||◌, Option, none, some, nat_eq, ◌==◌, contains,
  if◌then◌else◌, ltb,
}
use auto_lfs_builder.Text.{is_nil}
use auto_lfs_builder.Menuconfig.Kconf.{
  Kconf, Item, Nodes, no_node, node_at, symbol, choice, is_node, is_symbol, is_menu,
}

-- The symbols among the items of nodes.
unfoldable pub symbols_of : (ℕ → Item) → List ℕ → List ℕ
symbols_of item [] = []
symbols_of item (n ∷ nodes) = elim (item n) [
  | symbol s ↦ s ∷ symbols_of item nodes
  | _ ↦ symbols_of item nodes
]

unfoldable pub is_seen : Item → List ℕ → Bool
unfolding contains
is_seen (symbol s) seen_syms = contains s seen_syms
is_seen _ seen_syms = false

module _ {V : Type 0} (kconf : Kconf V) where
  unfoldable pub visible : V → ℕ → Bool
  visible v n = elim (kconf.prompt_value v n) [
    | none ↦ false
    | some p ↦ ltb 0 p && not (is_menu (kconf.item n) && not (ltb 0 (kconf.visibility_value v n)))
  ]

  -- The first of the parents that is a menu; none is an `AttributeError`.
  unfoldable pub first_menu : List ℕ → Option ℕ
  first_menu [] = none
  first_menu (n ∷ nodes) = if kconf.is_menuconfig n then some n else first_menu nodes

  unfoldable pub parent_menu : ℕ → Option ℕ
  unfolding first_menu
  parent_menu n = first_menu (kconf.parents n)

  -- `rec` of `_shown_nodes`
  unfoldable pub shown_from : V → Bool → Nodes → List ℕ
  unfolding visible
  shown_from v show_all no_node = []
  shown_from v show_all (node_at n list next) =
      let children = shown_from v show_all list in
      let rest = shown_from v show_all next in
      if visible v n || show_all
      then n ∷ ((if is_node list && not (kconf.is_menuconfig n) then children else []) ++ rest)
      else if is_node list && is_symbol (kconf.item n)
      then (if is_nil children
          then rest
          else n ∷ ((if kconf.is_menuconfig n then [] else children) ++ rest))
      else rest

  -- The inner loop over the nodes of one location of a choice: the nodes that are added and the symbols
  -- that have been seen after it.
  unfoldable pub unseen : Bool → List ℕ → List ℕ → List ℕ × List ℕ
  unfolding is_seen symbols_of
  unseen is_here [] seen_syms = ([], seen_syms)
  unseen is_here (n ∷ nodes) seen_syms =
      let is_taken = not (is_seen (kconf.item n) seen_syms) || is_here in
      let (added, seen) =
        unseen is_here nodes
          (if is_taken then symbols_of kconf.item (n ∷ []) ++ seen_syms else seen_syms) in
      ((if is_taken then n ∷ added else added), seen)

  -- The outer loop, over the locations of the choice.
  unfoldable pub choice_shown : V → Bool → ℕ → List ℕ → List ℕ → List ℕ
  unfolding shown_from unseen
  choice_shown v show_all here [] seen_syms = []
  choice_shown v show_all here (choice_node ∷ nodes) seen_syms =
      let found =
        unseen (choice_node == here) (shown_from v show_all (kconf.list choice_node)) seen_syms in
      found.0 ++ choice_shown v show_all here nodes found.1

  unfoldable pub shown_nodes : V → Bool → ℕ → List ℕ
  unfolding shown_from symbols_of choice_shown
  shown_nodes v show_all here = elim (kconf.item here) [
    | choice c ↦
        choice_shown v show_all here (kconf.choice_nodes c)
          (symbols_of kconf.item (shown_from v show_all (kconf.list here)))
    | _ ↦ shown_from v show_all (kconf.list here)
  ]
