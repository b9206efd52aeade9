-- ===== src/Menuconfig/Samples/Search.antt =====
-- A search among a symbol and a menu.
use auto_lfs_builder.Prelude.{
  ◌≡◌, refl, [], ◌∷◌, true, none, some, list_eq, nat_eq, ◌==◌, if◌then◌else◌, list_beq, contains, ℕ,
}
use auto_lfs_builder.Text.{codes, lower_char, lower, starts_with, is_space, cons_head}
use auto_lfs_builder.KernelConfig.Lines.{split_words}
use auto_lfs_builder.Menuconfig.Edit.{
  char, key_down, edit_text, edit_key, edit_char, insert_char, is_erase, scroll_to,
}
use auto_lfs_builder.Menuconfig.Search.{
  Searched, text_leb, insert_by, sorted, in_name, in_prompt, all_find, matching, sorted_sc_nodes,
  sorted_menu_comment_nodes, sc_found, menu_comment_found, compile_all, matches_of,
}
use auto_lfs_builder.Menuconfig.JumpDialog.{
  Search, Screen, searching, found, select_next_match, resize_jump_to_dialog, find_matches,
  edit_search, search_char, search_key, search_keys, first_search, jump_to_dialog,
}
use auto_lfs_builder.Menuconfig.Matching.{is_match}
use auto_lfs_builder.Menuconfig.Chosen.{jump_to_dialog-Chosen}

-- The symbol is called A and has the prompt Ab; its menu is called C. A pattern is a text that is
-- looked for at the front, but for that of one asterisk.
abbrev pub searched : Searched
searched = record {
  unique_defined_syms = record { name = some (codes "A"); nodes = 2 ∷ [] } ∷ [];
  unique_choices = [];
  menus = 1 ∷ [];
  comments = [];
  name = λ n. if n == 2 then some (codes "A") else none;
  prompt = λ n. some (if n == 2 then codes "Ab" else codes "C");
  compile = λ regex. if regex == codes "*" then none else some (starts_with regex);
}

abbrev screen : Screen
screen = record { screen_height = 20; width = 30 }

-- The text a, and the key down, with which the one match stays selected.
abbrev narrowed : Search
narrowed = record {
  box = record { s = codes "a"; i = 1; hscroll = 0 };
  matches = 2 ∷ [];
  sel_node_i = 0;
  scroll = 0;
  height = 11;
}

jump_to_dialog-narrowed :
    jump_to_dialog searched none 20 ((char b'a', screen) ∷ (key_down, screen) ∷ [])
    ≡ searching narrowed
unfolding jump_to_dialog first_search search_keys search_key search_char select_next_match
    resize_jump_to_dialog find_matches edit_search matches_of compile_all split_words lower
    lower_char matching all_find sorted_sc_nodes sorted_menu_comment_nodes sorted insert_by text_leb
    sc_found menu_comment_found in_name in_prompt starts_with is_space edit_text edit_key edit_char
    insert_char is_erase scroll_to list_beq cons_head
jump_to_dialog-narrowed = refl

is_match-narrowed : is_match searched (codes "a") 2 ≡ true
unfolding is_match contains all_find split_words lower lower_char sc_found menu_comment_found
    in_name in_prompt starts_with is_space list_beq cons_head
is_match-narrowed = refl

jump_to_dialog-Chosen_example :
    (chosen : ℕ) × (jump_to_dialog searched none 20
        ((char b'a', screen) ∷ (key_down, screen) ∷ (char 0x0a, screen) ∷ [])
      ≡ found chosen)
    × (is_match searched (codes "a") chosen ≡ true)
jump_to_dialog-Chosen_example =
    jump_to_dialog-Chosen searched none 20 ((char b'a', screen) ∷ (key_down, screen) ∷ []) screen
      narrowed 2 jump_to_dialog-narrowed is_match-narrowed
