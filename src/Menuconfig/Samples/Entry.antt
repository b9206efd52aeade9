-- ===== src/Menuconfig/Samples/Entry.antt =====
-- The text of the entry of a symbol.
use auto_lfs_builder.Prelude.{◌≡◌, ◌+◌, refl, true, false, some, list_eq, nat_eq, arith}
use auto_lfs_builder.Text.{codes}
use auto_lfs_builder.Menuconfig.Kconf.{Kconf, Tri, symbol, bool_kind}
use auto_lfs_builder.Menuconfig.ChangeNode.{is_y_mode_choice_sym, changeable}
use auto_lfs_builder.Menuconfig.Entry.{
  Labels, tri_value_str, value_str, indent, name_str, is_new, prompt_str, selection_str, menu_str,
  node_str,
}
use auto_lfs_builder.Menuconfig.Honest.{has_bracket, TellsMenu, entry-shows}
use auto_lfs_builder.Menuconfig.Samples.{kconf, menus, top}

abbrev labels : Labels Tri
labels = record {
  prompt = λ n. some (codes "Ab");
  sc_name = λ sc. codes "A";
  standard_sc_expr_str = λ sc. codes "A";
  type = λ v sc. bool_kind;
  is_selection = λ v sc. false;
  in_y_choice = λ v sc. false;
  has_user_value = λ v sc. false;
}

node_str-top : node_str kconf labels true 2 top ≡ codes "[ ] <A> Ab (NEW)"
unfolding menus node_str value_str tri_value_str is_y_mode_choice_sym indent name_str is_new
    prompt_str selection_str menu_str
node_str-top = refl

-- A symbol with a menu below it, at node 1.
abbrev with_menu : Kconf Tri
with_menu = record kconf { item = λ n. symbol (n + 10) }

node_str-with_menu : node_str with_menu labels true 1 top ≡ codes "[ ] <A> Ab (NEW)  --->"
unfolding menus node_str value_str tri_value_str is_y_mode_choice_sym indent name_str is_new
    prompt_str selection_str menu_str
node_str-with_menu = refl

entry-shows_example :
    (has_bracket (node_str with_menu labels true 1 top) ≡ changeable with_menu top.values 1)
    × TellsMenu with_menu 1 top (node_str with_menu labels true 1 top)
entry-shows_example = entry-shows with_menu labels true 1 2 top refl refl refl (omega arith)
