-- ===== src/Menuconfig/Samples.antt =====
-- A small configuration: a menu of one symbol, a symbol, and a symbol that is not visible.
mod Number
mod Session
mod Search
mod Entry
use auto_lfs_builder.Prelude.{
  ◌+◌, ◌≡◌, refl, [], ◌∷◌, ◌++◌, true, false, none, some, arith, list_eq, nat_eq, ◌==◌,
  if◌then◌else◌, get_elem?, contains, leb, list_beq,
}
use auto_lfs_builder.Text.{codes, is_space, lstrip_by, rstrip_by, starts_with}
use auto_lfs_builder.Menuconfig.Edit.{
  char, key_left, edit_text, dialog_loop, word_start, is_word, is_erase,
}
use auto_lfs_builder.Menuconfig.View.{IsInView, edit_text-IsInView}
use auto_lfs_builder.Menuconfig.Editor.{
  result, promised, promised_key, edited, edited_char, front, last_of,
}
use auto_lfs_builder.Menuconfig.Dialog.{promise, dialog_loop-promised}
use auto_lfs_builder.Menuconfig.Kconf.{
  bool_kind, Kconf, Nodes, no_node, node_at, symbol, menu_item, Tri, tri_n, tri_y, tri_to_str,
}
use auto_lfs_builder.Menuconfig.Shown.{shown_nodes, visible, parent_menu}
use auto_lfs_builder.Menuconfig.Navigate.{
  State, index, select_next_menu_entry, enter_menu, leave_menu, toggle_show_all, resize_main,
}
use auto_lfs_builder.Menuconfig.Change.{
  first_show_all, init, fresh, set_sel_node_tri_val, is_among, set_val,
}
use auto_lfs_builder.Menuconfig.OnScreen.{IsOnScreen}
use auto_lfs_builder.Menuconfig.Reach.{pressed, here, further, init-IsOnScreen}
use auto_lfs_builder.Menuconfig.Loop.{press, press_char}
use auto_lfs_builder.Menuconfig.ChangeNode.{change_node, tri_index}
use auto_lfs_builder.Menuconfig.Number.{int_of, figure_of, negsuc}
use auto_lfs_builder.Menuconfig.Return.{leave_menu-enter_menu}
use auto_lfs_builder.Menuconfig.Toggle.{toggle_show_all-selected}

abbrev driver : Nodes
driver = node_at 4 no_node no_node

-- The value is that of symbol 12, at node 2.
abbrev kconf : Kconf Tri
kconf = record {
  top_node = 0;
  parents = λ n. if n == 0 then [] else if n == 4 then 1 ∷ 0 ∷ [] else 0 ∷ [];
  list = λ n.
      if n == 0
      then node_at 1 driver (node_at 2 no_node (node_at 3 no_node no_node))
      else if n == 1
      then driver
      else no_node;
  is_menuconfig = λ n. leb n 1;
  item = λ n. if leb n 1 then menu_item else symbol (n + 10);
  choice_nodes = λ c. [];
  selection_nodes = λ v c. none;
  prompt_value = λ v n. some (if n == 3 then 0 else 2);
  visibility_value = λ v n. 2;
  str_value = λ v sc. tri_to_str v;
  assignable = λ v sc. tri_n ∷ tri_y ∷ [];
  set_value = λ v sc val. if val == codes "y" then tri_y else tri_n;
  orig_type = λ sc. bool_kind;
  tri_value = λ v sc. v;
  in_choice = λ sc. false;
  item_visibility = λ v sc. 2;
  ranges = λ v sc. [];
}

menus : Unit {0}
unfolding shown_nodes visible first_show_all init resize_main toggle_show_all select_next_menu_entry
    enter_menu leave_menu contains index parent_menu set_sel_node_tri_val list_beq is_among set_val
menus = tt

abbrev top : State Tri
top = record (fresh kconf tri_n false false) { height = 10 }

first_show_all-kconf : first_show_all kconf tri_n ≡ some false
unfolding menus
first_show_all-kconf = refl

shown_nodes-top : shown_nodes kconf tri_n false 0 ≡ 1 ∷ 2 ∷ []
unfolding menus
shown_nodes-top = refl

shown_nodes-all_top : shown_nodes kconf tri_n true 0 ≡ 1 ∷ 2 ∷ 3 ∷ []
unfolding menus
shown_nodes-all_top = refl

-- A value is set where it can be assigned.
set_sel_node_tri_val-top :
    set_sel_node_tri_val kconf tri_y (record top { sel_node_i = 1 })
    ≡ some (record top { sel_node_i = 1; values = tri_y; conf_changed = true })
unfolding menus
set_sel_node_tri_val-top = refl

edit_text-words : word_start (codes "make menu  ") ≡ 5
unfolding word_start is_word is_space lstrip_by
edit_text-words = refl

edit_text-IsInView_example :
    IsInView 20 (edit_text none (char b'x') (record { s = codes "make"; i = 4; hscroll = 0 }) 20)
edit_text-IsInView_example =
    edit_text-IsInView none (char b'x') (record { s = codes "make"; i = 4; hscroll = 0 }) 20
      (omega arith) (omega arith)

-- Left, a character, and Enter.
dialog_loop-promised_example :
    promise (
      dialog_loop
        (some 0x7f)
        ((key_left, 20) ∷ (char b'x', 20) ∷ (char 0x0a, 20) ∷ [])
        (record { s = codes "02"; i = 2; hscroll = 0 }))
    ≡ result (codes "0x2")
unfolding is_erase promised promised_key edited edited_char front last_of
dialog_loop-promised_example =
    dialog_loop-promised (some 0x7f) ((key_left, 20) ∷ (char b'x', 20) ∷ (char 0x0a, 20) ∷ [])
      (record { s = codes "02"; i = 2; hscroll = 0 }) (omega arith)

-- The second entry is selected and show-all mode turned on.
abbrev moved : State Tri
moved = select_next_menu_entry (init kconf tri_n false false 10)

press-down : press kconf none 10 [] (char b'j') (init kconf tri_n false false 10) ≡ some moved
unfolding press press_char contains
press-down = refl

press-all : press kconf none 10 [] (char b'a') moved ≡ some (toggle_show_all kconf moved)
unfolding press press_char contains is_erase
press-all = refl

-- The space sets the symbol of the second entry.
press-space :
    press kconf none 10 [] (char b' ') (record top { sel_node_i = 1 })
    ≡ some (record top { sel_node_i = 1; values = tri_y; conf_changed = true })
unfolding menus press press_char change_node tri_index
press-space = refl

int_of-hex : int_of 16 (codes " -0x1_F ") ≡ some (negsuc 30)
unfolding int_of figure_of is_space lstrip_by starts_with rstrip_by
int_of-hex = refl

init-IsOnScreen_example : IsOnScreen (toggle_show_all kconf moved)
init-IsOnScreen_example =
    init-IsOnScreen kconf tri_n false false 10 (toggle_show_all kconf moved) first_show_all-kconf (
      further
        (further here
          (pressed none 10 [] (char b'j') (init kconf tri_n false false 10) moved press-down))
        (pressed none 10 [] (char b'a') moved (toggle_show_all kconf moved) press-all))

top-IsOnScreen : IsOnScreen top
unfolding menus
top-IsOnScreen = omega arith

leave_menu-enter_menu_example : leave_menu kconf (enter_menu kconf 1 top).1 ≡ some top
unfolding menus
leave_menu-enter_menu_example =
    leave_menu-enter_menu kconf 1 top top-IsOnScreen refl refl refl (omega arith) refl refl refl

toggle_show_all-selected_example :
    get_elem? (toggle_show_all kconf top).shown (toggle_show_all kconf top).sel_node_i ≡ some 1
unfolding menus
toggle_show_all-selected_example = toggle_show_all-selected kconf top 1 refl refl refl refl
