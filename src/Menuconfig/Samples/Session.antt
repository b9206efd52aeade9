-- ===== src/Menuconfig/Samples/Session.antt =====
-- A session whose first save fails.
use auto_lfs_builder.Prelude.{
  ◌≡◌, refl, List, [], ◌∷◌, Bool, true, false, none, some, list_eq, nat_eq, if◌then◌else◌, contains,
}
use auto_lfs_builder.Text.{codes, lower_char}
use auto_lfs_builder.Menuconfig.Edit.{char, is_erase, key_down}
use auto_lfs_builder.Menuconfig.Kconf.{Tri, tri_n, tri_y}
use auto_lfs_builder.Menuconfig.Navigate.{select_next_menu_entry}
use auto_lfs_builder.Menuconfig.Change.{fresh}
use auto_lfs_builder.Menuconfig.Loop.{press, press_char}
use auto_lfs_builder.Menuconfig.Session.{
  Event, config_loaded, config_written, write_failed, Files, Session, dialog_key, needs_save,
  any_outdated, menu_rows, try_save,
}
use auto_lfs_builder.Menuconfig.Quit.{
  asks, ends, failure, not_saved, quit_start, quit_saving, quit_answer, quit_pressed, quit_keys,
  quit_dialog,
}
use auto_lfs_builder.Menuconfig.Run.{Input, quit, act, act_on_char, act_on_menu, run, start}
use auto_lfs_builder.Menuconfig.Ended.{IsToldOrSaved}
use auto_lfs_builder.Menuconfig.Lossless.{run-IsToldOrSaved}
use auto_lfs_builder.Menuconfig.Closing.{quit_dialog-space_n}
use auto_lfs_builder.Menuconfig.Samples.Search.{searched}
use auto_lfs_builder.Menuconfig.Samples.{kconf, menus}

-- A write is refused when none was refused before.
abbrev refused_once : List (Event Tri) → Bool
refused_once (write_failed f ∷ events) = false
refused_once _ = true

abbrev files : Files Tri
files = record {
  write_config = λ events v f. if refused_once events then none else some (codes "saved");
  write_min_config = λ events v f. none;
  load_config = λ events f. none;
  expand_user = λ f. f;
  has_missing_syms = λ v. false;
  unique_defined_syms = λ v. [];
}

abbrev started : Session Tri
started = record {
  menu = record (fresh kconf tri_n false false) { height = 13 };
  conf_filename = codes ".config";
  minconf_filename = codes "defconfig";
  show_help = false;
  show_name = false;
  events = config_loaded (codes ".config") tri_n ∷ [];
}

start-files : start kconf files (codes ".config") tri_n true 20 ≡ some started
unfolding menus start needs_save any_outdated menu_rows
start-files = refl

-- The second entry, y, then q, and y again after the failure.
abbrev inputs : List Input
inputs =
    record {
      key = key_down;
      screen_height = 20;
      answers = [];
      dialog_keys = [];
      search_height = 20;
      search_inputs = [];
      target = none;
    }
    ∷ record {
      key = char b'y';
      screen_height = 20;
      answers = [];
      dialog_keys = [];
      search_height = 20;
      search_inputs = [];
      target = none;
    }
    ∷ record {
      key = char b'q';
      screen_height = 20;
      answers = [];
      dialog_keys = (char b'Y', 20) ∷ (char 0x0a, 20) ∷ (char b'y', 20) ∷ [];
      search_height = 20;
      search_inputs = [];
      target = none;
    }
    ∷ []

abbrev changed : Session Tri
changed = record started {
  menu = record started.menu { sel_node_i = 1; values = tri_y; conf_changed = true };
}

abbrev saved : Session Tri
saved = record changed {
  events =
      config_written (codes ".config") tri_y
      ∷ write_failed (codes ".config")
      ∷ config_loaded (codes ".config") tri_n
      ∷ [];
}

run-files : run kconf files searched none inputs started ≡ some (quit (codes "saved") saved)
unfolding menus run act act_on_char act_on_menu press press_char select_next_menu_entry is_erase
    contains quit_dialog quit_start quit_keys quit_pressed quit_answer quit_saving try_save
    dialog_key lower_char
run-files = refl

run-IsToldOrSaved_example : IsToldOrSaved (codes "saved") saved
run-IsToldOrSaved_example =
    run-IsToldOrSaved kconf files searched none (codes ".config") tri_n true 20 inputs started saved
      (codes "saved") start-files run-files

abbrev failed : Session Tri
failed = record changed {
  events = write_failed (codes ".config") ∷ config_loaded (codes ".config") tri_n ∷ [];
}

quit_dialog-files : quit_dialog files ((char b'Y', 20) ∷ []) changed ≡ asks failure failed
unfolding quit_dialog quit_start quit_keys quit_pressed quit_answer quit_saving try_save dialog_key
    lower_char
quit_dialog-files = refl

quit_dialog-space_n_example :
    quit_dialog files ((char b'Y', 20) ∷ (char b' ', 20) ∷ (char b'n', 20) ∷ []) changed
    ≡ ends (not_saved (codes ".config")) failed
quit_dialog-space_n_example =
    quit_dialog-space_n files ((char b'Y', 20) ∷ []) 20 20 failure changed failed quit_dialog-files
