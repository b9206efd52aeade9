-- ===== src/Menuconfig/Listed.antt =====
-- The list of the search dialog of menuconfig.py, under each of its operations.
use auto_lfs_builder.Prelude.{
  ℕ, zero, suc, ◌+◌, ◌≤◌, ◌<◌, ◌≡◌, refl, sym, ap, ◌∙◌, length, Option, arith, nat_eq, list_eq,
  list_beq_iff, ◌==◌, on_if,
}
use auto_lfs_builder.Menuconfig.Edit.{Key, edit_text}
use auto_lfs_builder.Menuconfig.Loop.{times}
use auto_lfs_builder.Menuconfig.Search.{Searched, matches_of}
use auto_lfs_builder.Menuconfig.JumpDialog.{
  Search, select_next_match, select_prev_match, resize_jump_to_dialog, find_matches, edit_search,
}

-- Where there are matches, one of them is selected, and its row is in the window.
pub record IsSelected (s : Search) : Type 0 where
  pub tall : 1 ≤ s.height
  pub selected : 0 < length s.matches → s.sel_node_i < length s.matches
  pub below_top : 0 < length s.matches → s.scroll ≤ s.sel_node_i
  pub above_bottom : 0 < length s.matches → s.sel_node_i < s.scroll + s.height

select_next_match-IsSelected : (s : Search) → IsSelected s → IsSelected (select_next_match s)
unfolding select_next_match
select_next_match-IsSelected s h = ground arith

select_prev_match-IsSelected : (s : Search) → IsSelected s → IsSelected (select_prev_match s)
unfolding select_prev_match
select_prev_match-IsSelected s h = ground arith

resize_jump_to_dialog-IsSelected :
    (screen_height : ℕ) (s : Search)
    → IsSelected s
    → IsSelected (resize_jump_to_dialog screen_height s)
unfolding resize_jump_to_dialog
resize_jump_to_dialog-IsSelected screen_height s h = ground arith

module _ (searched : Searched) where
  -- The list has the matches of the text.
  pub record IsListed (s : Search) : Type 0 where
    pub shown : IsSelected s
    pub listed : s.matches ≡ matches_of searched s.box.s

  abbrev pub Keeps : (Search → Search) → Type 0
  Keeps f = (s : Search) → IsListed s → IsListed (f s)

  pub next-Keeps : Keeps select_next_match
  unfolding select_next_match
  next-Keeps s h = record {
    shown = select_next_match-IsSelected s h.shown;
    listed =
        on_if (λ (t : Search). t.matches ≡ matches_of searched t.box.s)
          (s.sel_node_i + 1 == length s.matches) (λ _. h.listed) (λ _. h.listed);
  }

  pub prev-Keeps : Keeps select_prev_match
  unfolding select_prev_match
  prev-Keeps s h = record {
    shown = select_prev_match-IsSelected s h.shown;
    listed =
        on_if (λ (t : Search). t.matches ≡ matches_of searched t.box.s) (s.sel_node_i == 0)
          (λ _. h.listed) (λ _. h.listed);
  }

  pub resize-Keeps : (screen_height : ℕ) → Keeps (resize_jump_to_dialog screen_height)
  unfolding resize_jump_to_dialog
  resize-Keeps screen_height s h = record {
    shown = resize_jump_to_dialog-IsSelected screen_height s h.shown;
    listed = h.listed;
  }

  pub times-Keeps : (f : Search → Search) (n : ℕ) → Keeps f → Keeps (times n f)
  times-Keeps f zero keeps s h = h
  times-Keeps f (suc n) keeps s h = times-Keeps f n keeps (f s) (keeps s h)

  -- What is found anew is listed, in a window that has a row.
  pub find_matches-IsListed : (s : Search) → 1 ≤ s.height → IsListed (find_matches searched s)
  unfolding find_matches
  find_matches-IsListed s tall = record {
    shown = record {
      tall = tall;
      selected = λ some_match. some_match;
      below_top = λ _. omega arith;
      above_bottom = λ _. omega (arith, tall);
    };
    listed = refl;
  }

  pub edit_search-Keeps :
      (erase : Option ℕ) (c : Key) (width : ℕ) → Keeps (edit_search searched erase c width)
  unfolding edit_search
  edit_search-Keeps erase c width s h =
      let edited : Search = record s { box = edit_text erase c s.box width } in
      on_if IsListed (edited.box.s == s.box.s)
        (λ q. record {
          shown = record {
            tall = h.shown.tall;
            selected = h.shown.selected;
            below_top = h.shown.below_top;
            above_bottom = h.shown.above_bottom;
          };
          listed =
              h.listed ∙ ap (matches_of searched) (sym ((list_beq_iff edited.box.s s.box.s).0 q));
        })
        (λ _. find_matches-IsListed edited h.shown.tall)
