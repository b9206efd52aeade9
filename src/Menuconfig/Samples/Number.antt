-- ===== src/Menuconfig/Samples/Number.antt =====
-- A symbol of type int, with a range, in a menu of its own.
use auto_lfs_builder.Prelude.{
  ◌+◌, ◌≡◌, refl, [], ◌∷◌, true, false, none, some, list_eq, nat_eq, ◌==◌, if◌then◌else◌, list_beq,
}
use auto_lfs_builder.Text.{Text, codes, strip, is_space, lstrip_by, rstrip_by, starts_with}
use auto_lfs_builder.Menuconfig.Kconf.{Kconf, no_node, node_at, symbol, menu_item, int_kind, tri_n}
use auto_lfs_builder.Menuconfig.Shown.{shown_nodes, visible}
use auto_lfs_builder.Menuconfig.Navigate.{State, index}
use auto_lfs_builder.Menuconfig.Change.{fresh, update_menu, set_val}
use auto_lfs_builder.Menuconfig.Number.{
  int_of, figure_of, magnitude, unprefixed, check_ranges, check_valid,
}
use auto_lfs_builder.Menuconfig.ChangeNode.{
  trimmed, enter_text, set_value_of, changeable, change_node, is_y_mode_choice_sym,
}
use auto_lfs_builder.Menuconfig.InRange.{Allows, change_node-Allows}

-- The values are the text of the symbol, 11, which is at node 1.
abbrev kconf : Kconf Text
kconf = record {
  top_node = 0;
  parents = λ n. if n == 0 then [] else 0 ∷ [];
  list = λ n. if n == 0 then node_at 1 no_node no_node else no_node;
  is_menuconfig = λ n. n == 0;
  item = λ n. if n == 0 then menu_item else symbol (n + 10);
  choice_nodes = λ c. [];
  selection_nodes = λ v c. none;
  prompt_value = λ v n. some 2;
  visibility_value = λ v n. 2;
  str_value = λ v sc. v;
  assignable = λ v sc. [];
  set_value = λ v sc val. val;
  orig_type = λ sc. int_kind;
  tri_value = λ v sc. tri_n;
  in_choice = λ sc. false;
  item_visibility = λ v sc. 2;
  ranges = λ v sc. (codes "-5", codes "0", 0) ∷ (codes "1", codes "100", 2) ∷ [];
}

abbrev menu : State Text
menu = record (fresh kconf (codes "7") false false) { height = 10 }

-- A number that is too large is asked for again.
change_node-menu :
    change_node kconf 1 (some (codes "200") ∷ some (codes " 42 ") ∷ []) menu
    ≡ some (true, record menu { values = codes "42"; conf_changed = true })
unfolding change_node changeable is_y_mode_choice_sym set_value_of enter_text trimmed strip is_space
    lstrip_by rstrip_by check_valid check_ranges int_of figure_of magnitude unprefixed starts_with
    set_val update_menu shown_nodes visible index list_beq
change_node-menu = refl

change_node-Allows_example :
    Allows kconf (symbol 11) menu (record menu { values = codes "42"; conf_changed = true })
change_node-Allows_example =
    change_node-Allows kconf 1 (some (codes "200") ∷ some (codes " 42 ") ∷ []) menu
      (true, record menu { values = codes "42"; conf_changed = true }) refl change_node-menu
