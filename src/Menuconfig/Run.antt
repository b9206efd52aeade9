-- ===== src/Menuconfig/Run.antt =====
-- The whole run of menuconfig.py: its start, and the main loop with loading, saving and quitting.
use auto_lfs_builder.Prelude.{
  ℕ, List, [], ◌∷◌, Bool, false, not, ◌&&◌, ◌||◌, Option, none, some, nat_eq, ◌==◌, contains,
  if◌then◌else◌,
}
use auto_lfs_builder.Text.{Text, codes}
use auto_lfs_builder.Menuconfig.Edit.{Key, char, is_erase}
use auto_lfs_builder.Menuconfig.Kconf.{Kconf}
use auto_lfs_builder.Menuconfig.Navigate.{◌>>=◌, resize_main, jump_to}
use auto_lfs_builder.Menuconfig.Change.{first_show_all, init}
use auto_lfs_builder.Menuconfig.Loop.{press, loaded, one_of}
use auto_lfs_builder.Menuconfig.Search.{Searched}
use auto_lfs_builder.Menuconfig.JumpDialog.{
  Found, searching, found, given_up, index_error, Screen, jump_to_dialog,
}
use auto_lfs_builder.Menuconfig.Session.{
  config_loaded, load_failed, Files, Session, menu_rows, resize, key_dialog, needs_save, save,
  save_min,
}
use auto_lfs_builder.Menuconfig.Quit.{Quit, asks, stays, ends, quit_dialog}

-- A key of the main loop, with the height of the screen and what is entered in the dialogs that it
-- opens: what input dialogs return, the keys of the others and of the search, with the height of the
-- screen when that is opened, and the node that is jumped to from the information dialog.
pub record Input : Type 0 where
  pub key : Key
  pub screen_height : ℕ
  pub answers : List (Option Text)
  pub dialog_keys : List (Key × ℕ)
  pub search_height : ℕ
  pub search_inputs : List (Key × Screen)
  pub target : Option ℕ

-- The loop goes on, or the program ends with a text.
pub data Outcome (V : Type 0) : Type 0 where
  going : Session V → Outcome V
  quit : Text → Session V → Outcome V

module _ {V : Type 0} where
  -- Keys that end are followed by Escape, which leaves each of the dialogs.
  abbrev pub outcome : Quit V → Outcome V
  outcome (asks mode s) = going s
  outcome (stays s) = going s
  outcome (ends msg s) = quit msg s

  abbrev pub go : Option (Session V) → Option (Outcome V)
  go o = do s ← o; some (going s)

module _ {V : Type 0} (kconf : Kconf V) (files : Files V) where
  -- The loop of `_load_dialog`, from its file name on.
  unfoldable pub load_file : List (Option Text) → Session V → Option (Session V)
  unfolding loaded needs_save
  load_file [] s = some s
  load_file (none ∷ answers) s = some s
  load_file (some text ∷ answers) s =
      let filename = files.expand_user text in
      elim (files.load_config s.events filename) [
        | none ↦ load_file answers (record s { events = load_failed filename ∷ s.events })
        | some v ↦ do
          menu ← loaded kconf v (needs_save files v) s.menu
          some (record s {
            menu = menu;
            conf_filename = filename;
            events = config_loaded filename v ∷ s.events;
          })
      ]

  -- Changes that are not saved are asked about first.
  unfoldable pub load_dialog : Input → Session V → Option (Session V)
  unfolding load_file key_dialog
  load_dialog input s =
      if s.menu.conf_changed
      then (let (c, asked) = key_dialog (codes "oc") input.dialog_keys s in
          elim c [
            | none ↦ some asked
            | some k ↦ if k == b'c' then some asked else load_file input.answers asked
          ])
      else load_file input.answers s

  -- After the dialogs of the whole screen the windows are resized.
  unfoldable pub jump_dialog : Option ℕ → Input → Session V → Option (Session V)
  unfolding jump_to resize_main
  jump_dialog target input s = elim target [
    | none ↦ some (resize input.screen_height s)
    | some node ↦ do
      menu ← jump_to kconf node s.menu
      some (resize input.screen_height (record s { menu = menu }))
  ]

  unfoldable pub search_dialog : Found → Input → Session V → Option (Session V)
  unfolding jump_dialog
  search_dialog (searching t) input s = jump_dialog none input s
  search_dialog (found node) input s = jump_dialog (some node) input s
  search_dialog given_up input s = jump_dialog none input s
  search_dialog index_error input s = none

  -- The keys that change the display alone.
  unfoldable pub act_on_menu : Option ℕ → Input → Session V → Option (Outcome V)
  unfolding press
  act_on_menu erase input s = do
    menu ←
        press kconf erase (menu_rows s.show_help input.screen_height) input.answers input.key s.menu
    some (going (record s { menu = menu }))

  -- The session that `menuconfig` begins: with the values `v` that were read, from the file if it
  -- exists; `none` where there is nothing to configure.
  unfoldable pub start : Text → V → (exists : Bool) → (screen_height : ℕ) → Option (Session V)
  unfolding first_show_all init needs_save menu_rows
  start conf_filename v exists screen_height = do
    show_all ← first_show_all kconf v
    some (record {
      menu =
          init kconf v (not exists || needs_save files v) show_all (menu_rows false screen_height);
      conf_filename = conf_filename;
      minconf_filename = codes "defconfig";
      show_help = false;
      show_name = false;
      events = if exists then config_loaded conf_filename v ∷ [] else [];
    })

module _ {V : Type 0} (kconf : Kconf V) (files : Files V) (searched : Searched) where
  unfoldable pub act_on_char : Option ℕ → ℕ → Input → Session V → Option (Outcome V)
  unfolding act_on_menu load_dialog jump_to_dialog search_dialog jump_dialog quit_dialog save
      save_min is_erase contains
  act_on_char erase c input s =
      if c == 0x1b && s.menu.cur_menu == kconf.top_node
      then some (outcome (quit_dialog files input.dialog_keys s))
      else if is_erase erase c
      then act_on_menu kconf files erase input s
      else if one_of c (codes "oO")
      then go (load_dialog kconf files input s)
      else if one_of c (codes "sS")
      then some (going (save files input.answers s))
      else if one_of c (codes "dD")
      then some (going (save_min files input.answers s))
      else if c == b'/'
      then go (
          search_dialog kconf files
            (jump_to_dialog searched erase input.search_height input.search_inputs) input s)
      else if c == b'?'
      then go (jump_dialog kconf files input.target input s)
      else if one_of c (codes "fF")
      then some (going (resize input.screen_height (record s { show_help = not s.show_help })))
      else if one_of c (codes "cC")
      then some (going (record s { show_name = not s.show_name }))
      else if one_of c (codes "qQ")
      then some (outcome (quit_dialog files input.dialog_keys s))
      else act_on_menu kconf files erase input s

  -- One turn of the main loop.
  unfoldable pub act : Option ℕ → Input → Session V → Option (Outcome V)
  unfolding act_on_char act_on_menu
  act erase input s = elim input.key [
    | char c ↦ act_on_char erase c input s
    | _ ↦ act_on_menu kconf files erase input s
  ]

  unfoldable pub run : Option ℕ → List Input → Session V → Option (Outcome V)
  unfolding act
  run erase [] s = some (going s)
  run erase (input ∷ inputs) s = do
    o ← act erase input s
    elim o [ going s' ↦ run erase inputs s' | quit msg s' ↦ some (quit msg s') ]
