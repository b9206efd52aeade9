-- ===== src/Menuconfig/Searching.antt =====
-- The search dialog of menuconfig.py shows the matches of its text, one of them selected.
use auto_lfs_builder.Prelude.{
  ℕ, zero, suc, ◌<◌, ◌≡◌, refl, sym, ap, ◌∙◌, subst, List, [], ◌∷◌, length, true, Option, none,
  some, arith, nat_eq, list_eq, ◌==◌, get_elem?, contains, on_if, on_option, on_list,
}
use auto_lfs_builder.Menuconfig.Edit.{
  Key, key_up, key_down, key_home, key_end, key_npage, key_ppage, key_resize, char,
}
use auto_lfs_builder.Menuconfig.Loop.{pg_jump}
use auto_lfs_builder.Menuconfig.OnScreen.{some-injective, contains-get_elem?}
use auto_lfs_builder.Menuconfig.Search.{Searched}
use auto_lfs_builder.Menuconfig.JumpDialog.{
  Search, Found, searching, found, given_up, index_error, Screen, select_next_match,
  select_prev_match, resize_jump_to_dialog, search_char, search_key, search_keys, first_search,
  jump_to_dialog,
}
use auto_lfs_builder.Menuconfig.Matching.{
  is_match, is_searched, is_match-is_searched, contains-matches_of,
}
use auto_lfs_builder.Menuconfig.Listed.{
  IsListed, next-Keeps, prev-Keeps, resize-Keeps, times-Keeps, find_matches-IsListed,
  edit_search-Keeps,
}

in_range :
    (nodes : List ℕ) (i : ℕ) → i < length nodes → (node : ℕ) × (get_elem? nodes i ≡ some node)
in_range [] i h = absurd (omega (arith, h))
in_range (x ∷ nodes) zero h = (x, refl)
in_range (x ∷ nodes) (suc i) h = in_range nodes i (omega (arith, h))

module _ (searched : Searched) where
  -- The dialog is open with a list as it should be, or one of the searched nodes was chosen, or the
  -- search was given up; nothing is raised.
  unfoldable pub IsSound : Found → Type 0
  IsSound (searching s) = IsListed searched s
  IsSound (found node) = is_searched searched node ≡ true
  IsSound given_up = Unit {0}
  IsSound index_error = ⊥

  -- Enter chooses the selected match.
  pub entered-match :
      (s : Search) (first : ℕ) (rest : List ℕ)
      → IsListed searched s
      → s.matches ≡ first ∷ rest
      → (node : ℕ) × (get_elem? (first ∷ rest) s.sel_node_i ≡ some node)
        × (is_match searched s.box.s node ≡ true)
  entered-match s first rest h e =
      let inside : s.sel_node_i < length (first ∷ rest) =
        subst (λ l. s.sel_node_i < length l) e
          (h.shown.selected (subst (λ l. 0 < length l) (sym e) (omega arith))) in
      let (node, at) = in_range (first ∷ rest) s.sel_node_i inside in
      (
        node,
        at,
        sym (contains-matches_of searched s.box.s node)
            ∙ ap (contains node) (sym h.listed ∙ e)
            ∙ contains-get_elem? node s.sel_node_i (first ∷ rest) at,
      )

  on_found :
      (q : Found) (f : Search → Found)
      → IsSound q
      → ((s : Search) → IsListed searched s → IsSound (f s))
      → IsSound (elim q [
        | searching s ↦ f s
        | found node ↦ found node
        | given_up ↦ given_up
        | index_error ↦ index_error
      ])
  unfolding IsSound
  on_found (searching s) f h k = k s h
  on_found (found node) f h k = h
  on_found given_up f h k = tt
  on_found index_error f h k = h

  enter : Search → Found
  enter s = elim s.matches [
    | [] ↦ searching s
    | node ∷ nodes ↦ elim (get_elem? (node ∷ nodes) s.sel_node_i) [
      | none ↦ index_error
      | some selected ↦ found selected
    ]
  ]

  enter-IsSound : (s : Search) → IsListed searched s → IsSound (enter s)
  unfolding enter IsSound
  enter-IsSound s h =
      on_list IsSound s.matches (λ _. h)
        (λ first rest e.
          let (node, at, match) = entered-match s first rest h e in
          on_option IsSound (get_elem? (first ∷ rest) s.sel_node_i) (λ q. cc (q, at))
            (λ selected q.
              is_match-is_searched searched s.box.s selected
                (ap (is_match searched s.box.s) (some-injective (sym q ∙ at)) ∙ match)))

  search_char-IsSound :
      (erase : Option ℕ) (c : ℕ) (screen : Screen) (s : Search)
      → IsListed searched s
      → IsSound (search_char searched erase c screen s)
  unfolding search_char IsSound enter
  search_char-IsSound erase c screen s h =
      on_if IsSound (c == 0x0a) (λ _. enter-IsSound s h)
        (λ _.
          on_if IsSound (c == 0x1b) (λ _. tt)
            (λ _.
              on_if IsSound (c == 0x06)
                (λ _.
                  on_list (IsListed searched) s.matches (λ _. h)
                    (λ node nodes _. resize-Keeps searched screen.screen_height s h))
                (λ _.
                  on_if IsSound (c == 0x04)
                    (λ _. times-Keeps searched select_next_match pg_jump (next-Keeps searched) s h)
                    (λ _. edit_search-Keeps searched erase (char c) screen.width s h))))

  search_key-IsSound :
      (erase : Option ℕ) (c : Key) (screen : Screen) (s : Search)
      → IsListed searched s
      → IsSound (search_key searched erase c screen s)
  unfolding search_key IsSound
  search_key-IsSound erase (char c) screen s h = search_char-IsSound erase c screen s h
  search_key-IsSound erase key_resize screen s h = resize-Keeps searched screen.screen_height s h
  search_key-IsSound erase key_down screen s h = next-Keeps searched s h
  search_key-IsSound erase key_up screen s h = prev-Keeps searched s h
  search_key-IsSound erase key_npage screen s h =
      times-Keeps searched select_next_match pg_jump (next-Keeps searched) s h
  search_key-IsSound erase key_ppage screen s h =
      times-Keeps searched select_prev_match pg_jump (prev-Keeps searched) s h
  search_key-IsSound erase key_end screen s h = record {
    shown = record {
      tall = h.shown.tall;
      selected = λ some_match. omega arith;
      below_top = λ some_match. omega (arith, h.shown.tall);
      above_bottom = λ some_match. omega arith;
    };
    listed = h.listed;
  }
  search_key-IsSound erase key_home screen s h = record {
    shown = record {
      tall = h.shown.tall;
      selected = λ some_match. some_match;
      below_top = λ some_match. omega arith;
      above_bottom = λ some_match. omega (arith, h.shown.tall);
    };
    listed = h.listed;
  }
  search_key-IsSound erase c screen s h = edit_search-Keeps searched erase c screen.width s h

  search_keys-IsSound :
      (erase : Option ℕ) (keys : List (Key × Screen)) (s : Search)
      → IsListed searched s
      → IsSound (search_keys searched erase keys s)
  unfolding search_keys IsSound
  search_keys-IsSound erase [] s h = h
  search_keys-IsSound erase ((c, screen) ∷ keys) s h =
      on_found (search_key searched erase c screen s) (search_keys searched erase keys)
        (search_key-IsSound erase c screen s h) (search_keys-IsSound erase keys)

  pub jump_to_dialog-IsSound :
      (erase : Option ℕ) (screen_height : ℕ) (keys : List (Key × Screen))
      → IsSound (jump_to_dialog searched erase screen_height keys)
  unfolding jump_to_dialog first_search resize_jump_to_dialog
  jump_to_dialog-IsSound erase screen_height keys =
      search_keys-IsSound erase keys (first_search searched screen_height) (
        find_matches-IsListed searched
          (resize_jump_to_dialog screen_height (record {
            box = record { s = []; i = 0; hscroll = 0 };
            matches = [];
            sel_node_i = 0;
            scroll = 0;
            height = 1;
          }))
          (ground arith))
