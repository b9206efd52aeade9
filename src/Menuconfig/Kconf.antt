-- ===== src/Menuconfig/Kconf.antt =====
-- What menuconfig.py uses of kconfiglib, which is a library: a parameter.
use auto_lfs_builder.Prelude.{ℕ, List, Option, Bool, true, false}
use auto_lfs_builder.Text.{Text, codes}

-- `node.item`: a symbol, a choice, `MENU` or `COMMENT`; the numbers are identities.
pub data Item : Type 0 where
  symbol choice : ℕ → Item
  menu_item comment_item : Item

abbrev pub is_symbol : Item → Bool
is_symbol (symbol n) = true
is_symbol _ = false

abbrev pub is_choice : Item → Bool
is_choice (choice n) = true
is_choice _ = false

abbrev pub is_menu : Item → Bool
is_menu menu_item = true
is_menu _ = false

-- The first node of a menu: its identity, the first node below it (`list`), and the one after it
-- (`next`); `no_node` is `None`.
pub data Nodes : Type 0 where
  no_node : Nodes
  node_at : ℕ → (list next : Nodes) → Nodes

abbrev pub is_node : Nodes → Bool
is_node no_node = false
is_node (node_at n list next) = true

-- The values 0, 1 and 2 of a tristate, and `TRI_TO_STR`.
pub data Tri : Type 0 where
  tri_n tri_m tri_y : Tri

abbrev pub tri_to_str : Tri → Text
tri_to_str tri_n = codes "n"
tri_to_str tri_m = codes "m"
tri_to_str tri_y = codes "y"

-- `orig_type`
pub data Kind : Type 0 where
  unknown_kind bool_kind tristate_kind string_kind int_kind hex_kind : Kind

-- The Kconfig instance. `V` is what changes of it, the values of the symbols and choices; the
-- fields without `V` are fixed once the Kconfig files are read.
pub record Kconf (V : Type 0) : Type 0 where
  pub top_node : ℕ
  -- `node.parent`, `node.parent.parent` and so on
  pub parents : ℕ → List ℕ
  pub list : ℕ → Nodes
  pub is_menuconfig : ℕ → Bool
  pub item : ℕ → Item
  -- `choice.nodes` of a choice
  pub choice_nodes : ℕ → List ℕ
  -- `choice.selection.nodes`; none where there is no selection
  pub selection_nodes : V → ℕ → Option (List ℕ)
  -- `expr_value(node.prompt[1])`; none where `node.prompt` is `None`
  pub prompt_value : V → ℕ → Option ℕ
  -- `expr_value(node.visibility)`
  pub visibility_value : V → ℕ → ℕ
  pub str_value : V → Item → Text
  pub assignable : V → Item → List Tri
  pub set_value : V → Item → Text → V
  pub orig_type : Item → Kind
  pub tri_value : V → Item → Tri
  -- whether `item.choice` is set
  pub in_choice : Item → Bool
  -- `item.visibility`
  pub item_visibility : V → Item → ℕ
  -- `sym.ranges`: the `str_value` of both ends and the `expr_value` of the condition
  pub ranges : V → Item → List (Text × Text × ℕ)
