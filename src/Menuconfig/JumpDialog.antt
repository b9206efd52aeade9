-- ===== src/Menuconfig/JumpDialog.antt =====
-- The loop of `_jump_to_dialog` of menuconfig.py.
use auto_lfs_builder.Prelude.{
  ℕ, ◌+◌, ◌-◌, List, [], ◌∷◌, length, ◌&&◌, Option, none, some, ltb, leb, nat_eq, list_eq, list_beq,
  ◌==◌, if◌then◌else◌, get_elem?,
}
use auto_lfs_builder.Menuconfig.Edit.{
  Key, Box, key_up, key_down, key_home, key_end, key_npage, key_ppage, key_resize, char, edit_text,
  scroll_offset,
}
use auto_lfs_builder.Menuconfig.Navigate.{max_scroll}
use auto_lfs_builder.Menuconfig.Loop.{times, pg_jump}
use auto_lfs_builder.Menuconfig.Search.{Searched, matches_of}

-- The local variables, with the height of `matches_win`. Where there is no match, nothing reads
-- `sel_node_i` and `scroll`, and `sel_node_i` stops at 0 where the source has -1.
pub record Search : Type 0 where
  pub box : Box
  pub matches : List ℕ
  pub sel_node_i : ℕ
  pub scroll : ℕ
  pub height : ℕ

-- What the dialog waits for, or how it ended.
pub data Found : Type 0 where
  searching : Search → Found
  found : ℕ → Found
  given_up : Found
  index_error : Found

-- The height of the screen, and the width of the edit box without its frame.
pub record Screen : Type 0 where
  pub screen_height : ℕ
  pub width : ℕ

unfoldable pub select_next_match : Search → Search
select_next_match s = if s.sel_node_i + 1 == length s.matches then s else record s {
  sel_node_i = s.sel_node_i + 1;
  scroll =
      if leb (s.scroll + s.height) (s.sel_node_i + 1 + scroll_offset)
        && ltb s.scroll (max_scroll s.matches s.height)
      then s.scroll + 1
      else s.scroll;
}

unfoldable pub select_prev_match : Search → Search
select_prev_match s = if s.sel_node_i == 0 then s else record s {
  sel_node_i = s.sel_node_i - 1;
  scroll = if ltb (s.sel_node_i - 1) (s.scroll + scroll_offset) then s.scroll - 1 else s.scroll;
}

-- `_resize_jump_to_dialog`; the help has 5 lines.
unfoldable pub resize_jump_to_dialog : ℕ → Search → Search
resize_jump_to_dialog screen_height s =
    let matches_win_height = screen_height - 5 - 4 in
    let height = if leb 1 matches_win_height then matches_win_height else 1 in
    record s {
      height = height;
      scroll = if leb height (s.sel_node_i - s.scroll) then s.sel_node_i + 1 - height else s.scroll;
    }

module _ (searched : Searched) where
  -- The top of the loop, when the search text has changed.
  unfoldable pub find_matches : Search → Search
  unfolding matches_of
  find_matches s = record s { matches = matches_of searched s.box.s; sel_node_i = 0; scroll = 0 }

  unfoldable pub edit_search : Option ℕ → Key → ℕ → Search → Search
  unfolding edit_text find_matches list_beq
  edit_search erase c width s =
      let edited : Search = record s { box = edit_text erase c s.box width } in
      if edited.box.s == s.box.s then edited else find_matches edited

  -- Ctrl-F shows information on the selected match, and the windows are resized after it.
  unfoldable pub search_char : Option ℕ → ℕ → Screen → Search → Found
  unfolding resize_jump_to_dialog select_next_match edit_search
  search_char erase c screen s =
      if c == 0x0a
      then elim s.matches [
        | [] ↦ searching s
        | node ∷ nodes ↦ elim (get_elem? (node ∷ nodes) s.sel_node_i) [
          | none ↦ index_error
          | some selected ↦ found selected
        ]
      ]
      else if c == 0x1b
      then given_up
      else if c == 0x06
      then searching
          (elim s.matches [ [] ↦ s | node ∷ nodes ↦ resize_jump_to_dialog screen.screen_height s ])
      else if c == 0x04
      then searching (times pg_jump select_next_match s)
      else searching (edit_search erase (char c) screen.width s)

  unfoldable pub search_key : Option ℕ → Key → Screen → Search → Found
  unfolding search_char resize_jump_to_dialog select_next_match select_prev_match edit_search
  search_key erase (char c) screen s = search_char erase c screen s
  search_key erase key_resize screen s = searching (resize_jump_to_dialog screen.screen_height s)
  search_key erase key_down screen s = searching (select_next_match s)
  search_key erase key_up screen s = searching (select_prev_match s)
  search_key erase key_npage screen s = searching (times pg_jump select_next_match s)
  search_key erase key_ppage screen s = searching (times pg_jump select_prev_match s)
  search_key erase key_end screen s =
      searching
        (record s { sel_node_i = length s.matches - 1; scroll = max_scroll s.matches s.height })
  search_key erase key_home screen s = searching (record s { sel_node_i = 0; scroll = 0 })
  search_key erase c screen s = searching (edit_search erase c screen.width s)

  unfoldable pub search_keys : Option ℕ → List (Key × Screen) → Search → Found
  unfolding search_key
  search_keys erase [] s = searching s
  search_keys erase ((c, screen) ∷ keys) s = elim (search_key erase c screen s) [
    | searching s' ↦ search_keys erase keys s'
    | found node ↦ found node
    | given_up ↦ given_up
    | index_error ↦ index_error
  ]

  -- The state before the first key.
  unfoldable pub first_search : ℕ → Search
  unfolding resize_jump_to_dialog find_matches
  first_search screen_height = find_matches (
      resize_jump_to_dialog screen_height (record {
        box = record { s = []; i = 0; hscroll = 0 };
        matches = [];
        sel_node_i = 0;
        scroll = 0;
        height = 1;
      }))

  unfoldable pub jump_to_dialog : Option ℕ → ℕ → List (Key × Screen) → Found
  unfolding search_keys first_search
  jump_to_dialog erase screen_height keys = search_keys erase keys (first_search screen_height)
