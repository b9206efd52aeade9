-- ===== src/Menuconfig/Entry.antt =====
-- The text of an entry of a menu of menuconfig.py: `_node_str`, `_should_show_name` and `_value_str`.
use auto_lfs_builder.Prelude.{
  ℕ, ◌+◌, ◌-◌, List, [], ◌∷◌, ◌++◌, length, Bool, true, false, not, ◌&&◌, ◌||◌, Option, none, some,
  leb, nat_eq, ◌==◌, if◌then◌else◌,
}
use auto_lfs_builder.Text.{Text, codes, is_nil}
use auto_lfs_builder.KernelConfig.Layout.{spaces}
use auto_lfs_builder.Menuconfig.Kconf.{
  Kconf, Item, Kind, Tri, choice, comment_item, is_symbol, is_choice, tri_n, tri_m, tri_y,
  unknown_kind, bool_kind,
}
use auto_lfs_builder.Menuconfig.Shown.{shown_nodes}
use auto_lfs_builder.Menuconfig.Navigate.{State}
use auto_lfs_builder.Menuconfig.ChangeNode.{is_text_kind, is_y_mode_choice_sym}

-- What more of kconfiglib goes into the texts.
pub record Labels (V : Type 0) : Type 0 where
  -- `node.prompt[0]`
  pub prompt : ℕ → Option Text
  pub sc_name : Item → Text
  pub standard_sc_expr_str : Item → Text
  -- `item.type`
  pub type : V → Item → Kind
  -- whether `item.choice.selection` is the item, and `item.choice.tri_value` is 2
  pub is_selection : V → Item → Bool
  pub in_y_choice : V → Item → Bool
  pub has_user_value : V → Item → Bool

-- `_SUBMENU_INDENT`
abbrev submenu_indent : ℕ
submenu_indent = 4

abbrev tri_char : Tri → Text
tri_char tri_n = codes " "
tri_char tri_m = codes "M"
tri_char tri_y = codes "*"

abbrev pub is_bool_kind : Kind → Bool
is_bool_kind bool_kind = true
is_bool_kind _ = false

abbrev pub is_unknown : Kind → Bool
is_unknown unknown_kind = true
is_unknown _ = false

abbrev pub is_m_y : List Tri → Bool
is_m_y (tri_m ∷ tri_y ∷ []) = true
is_m_y _ = false

abbrev is_y : Tri → Bool
is_y tri_y = true
is_y _ = false

abbrev pub is_comment : Item → Bool
is_comment comment_item = true
is_comment _ = false

module _ {V : Type 0} (kconf : Kconf V) (labels : Labels V) where
  unfoldable pub tri_value_str : V → Item → Text
  unfolding is_y_mode_choice_sym
  tri_value_str v item =
      let tri_val_str = tri_char (kconf.tri_value v item) in
      if is_y_mode_choice_sym kconf v item
      then (if labels.is_selection v item then codes "(X)" else codes "( )")
      else if leb (length (kconf.assignable v item)) 1
      then (if is_choice item then [] else codes "-" ++ tri_val_str ++ codes "-")
      else if is_bool_kind (labels.type v item)
      then codes "[" ++ tri_val_str ++ codes "]"
      else if is_m_y (kconf.assignable v item)
      then codes "{" ++ tri_val_str ++ codes "}"
      else codes "<" ++ tri_val_str ++ codes ">"

  unfoldable pub value_str : V → ℕ → Text
  unfolding tri_value_str
  value_str v node =
      let item = kconf.item node in
      if not (is_symbol item || is_choice item) || is_unknown (kconf.orig_type item)
      then []
      else if is_text_kind (kconf.orig_type item)
      then codes "(" ++ kconf.str_value v item ++ codes ")"
      else tri_value_str v item

  -- The indentation for the parents up to the nearest menu; the top node is a menu.
  unfoldable pub indent : List ℕ → ℕ
  indent [] = 0
  indent (parent ∷ parents) =
      let rest = indent parents in if kconf.is_menuconfig parent then 0 else submenu_indent + rest

  unfoldable pub name_str : Bool → ℕ → Text
  name_str show_name node =
      let item = kconf.item node in
      let has_prompt : Bool = elim (labels.prompt node) [ none ↦ false | some prompt ↦ true ] in
      if not has_prompt || (show_name && (is_symbol item || is_choice item))
      then (if is_symbol item
          then codes " <" ++ labels.sc_name item ++ codes ">"
          else codes " " ++ labels.standard_sc_expr_str item)
      else []

  unfoldable pub is_new : V → Item → Bool
  is_new v item =
      is_symbol item
      && not (labels.has_user_value v item)
      && not (is_unknown (kconf.orig_type item))
      && not (kconf.in_choice item && labels.in_y_choice v item)

  unfoldable pub prompt_str : V → ℕ → Text
  unfolding is_new
  prompt_str v node = elim (labels.prompt node) [
    | none ↦ []
    | some prompt ↦
        (if is_comment (kconf.item node)
          then codes " *** " ++ prompt ++ codes " ***"
          else codes " " ++ prompt)
        ++ (if is_new v (kconf.item node) then codes " (NEW)" else [])
  ]

  unfoldable pub first_prompt : (ℕ → Bool) → List ℕ → Option Text
  first_prompt here [] = none
  first_prompt here (node ∷ nodes) =
      let rest = first_prompt here nodes in
      elim (labels.prompt node) [
        | none ↦ rest
        | some prompt ↦ if here node then some prompt else rest
      ]

  abbrev is_below : ℕ → ℕ → Bool
  is_below node sym_node = elim (kconf.parents sym_node) [
    | [] ↦ false
    | parent ∷ _ ↦ parent == node
  ]

  -- The prompt of the selected symbol of a choice: that of its node there, or any.
  unfoldable pub selection_str : V → ℕ → Text
  unfolding first_prompt
  selection_str v node = elim (kconf.item node) [
    | choice c ↦
        if is_y (kconf.tri_value v (choice c))
        then elim (kconf.selection_nodes v c) [
          | none ↦ []
          | some nodes ↦ elim (first_prompt (is_below node) nodes) [
            | some prompt ↦ codes " (" ++ prompt ++ codes ")"
            | none ↦ elim (first_prompt (λ n. true) nodes) [
              | some prompt ↦ codes " (" ++ prompt ++ codes ")"
              | none ↦ []
            ]
          ]
        ]
        else []
    | _ ↦ []
  ]

  unfoldable pub menu_str : V → Bool → ℕ → Text
  unfolding shown_nodes
  menu_str v show_all node =
      if kconf.is_menuconfig node
      then (if is_nil (shown_nodes kconf v show_all node) then codes "  ----" else codes "  --->")
      else []

  unfoldable pub node_str : (show_name : Bool) → ℕ → State V → Text
  unfolding value_str indent name_str prompt_str selection_str menu_str
  node_str show_name node s =
      let value = value_str s.values node in
      value
      ++ (spaces (3 + indent (kconf.parents node) - length value)
          ++ (name_str show_name node
              ++ (prompt_str s.values node
                  ++ (selection_str s.values node ++ menu_str s.values s.show_all node))))
