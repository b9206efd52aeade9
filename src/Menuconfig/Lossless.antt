-- ===== src/Menuconfig/Lossless.antt =====
-- No change of a configuration is lost in menuconfig.py unless the user says so.
use auto_lfs_builder.Prelude.{
  ℕ, ◌≡◌, subst, List, [], ◌∷◌, Bool, true, false, not, ◌&&◌, ◌||◌, Option, none, some, nat_eq,
  ◌==◌, if◌then◌else◌,
}
use auto_lfs_builder.Text.{Text, codes}
use auto_lfs_builder.Menuconfig.Edit.{
  Key, key_left, key_right, key_up, key_down, key_home, key_end, key_npage, key_ppage,
  key_backspace, key_dc, key_resize, other_key, char, is_erase,
}
use auto_lfs_builder.Menuconfig.Kconf.{Kconf}
use auto_lfs_builder.Menuconfig.Navigate.{resize_main}
use auto_lfs_builder.Menuconfig.Change.{first_show_all, init}
use auto_lfs_builder.Menuconfig.Loop.{one_of}
use auto_lfs_builder.Menuconfig.OnScreen.{some_steps, some-injective}
use auto_lfs_builder.Menuconfig.Session.{Files, Session, config_loaded, needs_save}
use auto_lfs_builder.Menuconfig.Session.{config_loaded}
use auto_lfs_builder.Menuconfig.Run.{
  Input, Outcome, going, quit, act_on_menu, act_on_char, act, run, start,
}
use auto_lfs_builder.Menuconfig.Saved.{contents, IsSaved}
use auto_lfs_builder.Menuconfig.Unlost.{IsSafe, resize-IsSafe, save-IsSafe, save_min-IsSafe}
use auto_lfs_builder.Menuconfig.Unlost.{put_here}
use auto_lfs_builder.Menuconfig.Session.{needs_save}
use auto_lfs_builder.Menuconfig.Run.{act_on_char, act, run, start}
use auto_lfs_builder.Menuconfig.Change.{first_show_all, init}
use auto_lfs_builder.Menuconfig.Loop.{one_of}
use auto_lfs_builder.Menuconfig.Unlost.{save-IsSafe, save_min-IsSafe}
use auto_lfs_builder.Menuconfig.Edit.{
  key_left, key_right, key_up, key_down, key_home, key_end, key_npage, key_ppage, key_backspace,
  key_dc, key_resize, other_key, char, is_erase,
}
use auto_lfs_builder.Menuconfig.Ended.{IsToldOrSaved, IsSafeOutcome, quit_dialog-IsSafe}
use auto_lfs_builder.Menuconfig.Search.{Searched}
use auto_lfs_builder.Menuconfig.Guarded.{
  Ends, some-Ends, going-Ends, go-Ends, load_dialog-IsSafe, jump_dialog-IsSafe,
  search_dialog-IsSafe, act_on_menu-IsSafe,
}

module _ {V : Type 0} (kconf : Kconf V) (files : Files V) where
  start-IsSafe :
      (conf_filename : Text) (v : V) (exists : Bool) (screen_height : ℕ) (s : Session V)
      → start kconf files conf_filename v exists screen_height ≡ some s
      → IsSafe s
  unfolding start init resize_main IsSafe IsSaved contents
  start-IsSafe conf_filename v exists screen_height s e =
      let (show_all, _, e1) = some_steps (first_show_all kconf v) _ e in
      subst IsSafe (some-injective e1) (read exists)
    where
      read :
          (exists : Bool)
          → not exists || needs_save files v ≡ false
          → contents conf_filename (if exists then config_loaded conf_filename v ∷ [] else [])
            ≡ some v
      read true q = put_here conf_filename v none
      read false q = cc q

module _ {V : Type 0} (kconf : Kconf V) (files : Files V) (searched : Searched) where
  act_on_char-IsSafe :
      (erase : Option ℕ) (c : ℕ) (input : Input) (s : Session V)
      → IsSafe s
      → Ends (act_on_char kconf files searched erase c input s)
  unfolding act_on_char IsSafe
  act_on_char-IsSafe erase c input s h =
      let display = act_on_menu-IsSafe kconf files erase input s h in
      let left = some-Ends _ (quit_dialog-IsSafe files input.dialog_keys s h) in
      branch (c == 0x1b && s.menu.cur_menu == kconf.top_node) left (
        branch (is_erase erase c) display (
          branch (one_of c (codes "oO")) (go-Ends _ (load_dialog-IsSafe kconf files input s h)) (
            branch (one_of c (codes "sS")) (going-Ends _ (save-IsSafe files input.answers s h)) (
              branch (one_of c (codes "dD"))
                (going-Ends _ (save_min-IsSafe files input.answers s h))
                (branch (c == b'/') (go-Ends _ (search_dialog-IsSafe kconf files _ input s h)) (
                  branch (c == b'?')
                    (go-Ends _ (jump_dialog-IsSafe kconf files input.target input s h))
                    (branch (one_of c (codes "fF"))
                      (going-Ends _ (
                        resize-IsSafe input.screen_height (record s { show_help = not s.show_help })
                          h))
                      (branch (one_of c (codes "cC")) (going-Ends _ h)
                        (branch (one_of c (codes "qQ")) left display)))))))))
    where
      branch : (b : Bool) {x y : Option (Outcome V)} → Ends x → Ends y → Ends (if b then x else y)
      branch true p q = p
      branch false p q = q

  act-IsSafe :
      (erase : Option ℕ) (input : Input) (s : Session V)
      → IsSafe s
      → Ends (act kconf files searched erase input s)
  unfolding act
  act-IsSafe erase input s h = by_key input.key
    where
      display : Ends (act_on_menu kconf files erase input s)
      display = act_on_menu-IsSafe kconf files erase input s h

      by_key :
          (k : Key)
          → Ends (elim k [
            | char c ↦ act_on_char kconf files searched erase c input s
            | _ ↦ act_on_menu kconf files erase input s
          ])
      by_key (char c) = act_on_char-IsSafe erase c input s h
      by_key key_left = display
      by_key key_right = display
      by_key key_up = display
      by_key key_down = display
      by_key key_home = display
      by_key key_end = display
      by_key key_npage = display
      by_key key_ppage = display
      by_key key_backspace = display
      by_key key_dc = display
      by_key key_resize = display
      by_key (other_key n) = display

  on_outcome :
      (o : Outcome V) (f : Session V → Option (Outcome V))
      → IsSafeOutcome o
      → ((s : Session V) → IsSafe s → Ends (f s))
      → Ends (elim o [ going s ↦ f s | quit msg s ↦ some (quit msg s) ])
  unfolding IsSafeOutcome
  on_outcome (going s) f h k = k s h
  on_outcome (quit msg s) f h k = some-Ends (quit msg s) h

  run-IsSafe :
      (erase : Option ℕ) (inputs : List Input) (s : Session V)
      → IsSafe s
      → Ends (run kconf files searched erase inputs s)
  unfolding run
  run-IsSafe erase [] s h = going-Ends s h
  run-IsSafe erase (input ∷ inputs) s h = λ r e.
      let (o, acted, e1) = some_steps (act kconf files searched erase input s) _ e in
      on_outcome o (run kconf files searched erase inputs) (act-IsSafe erase input s h o acted)
        (run-IsSafe erase inputs) r e1

  -- Whatever is pressed and entered from the start on, with files that may refuse any write or
  -- load: if the program ends by its quit dialog, its last words are that the configuration was not
  -- saved, or the configuration of its file, as last written, whole or as a minimal one, or loaded
  -- without an error, is that of the menus.
  pub run-IsToldOrSaved :
      (erase : Option ℕ) (conf_filename : Text) (v : V) (exists : Bool) (screen_height : ℕ)
      (inputs : List Input) (s s' : Session V) (msg : Text)
      → start kconf files conf_filename v exists screen_height ≡ some s
      → run kconf files searched erase inputs s ≡ some (quit msg s')
      → IsToldOrSaved msg s'
  unfolding IsSafeOutcome
  run-IsToldOrSaved erase conf_filename v exists screen_height inputs s s' msg started ended =
      run-IsSafe erase inputs s
        (start-IsSafe kconf files conf_filename v exists screen_height s started) (quit msg s')
        ended
