-- ===== src/Menuconfig/Session.antt =====
-- The session around the main display of menuconfig.py: the files, the dialogs that ask for a key, and
-- those that load and save.
use auto_lfs_builder.Prelude.{
  ℕ, ◌-◌, List, [], ◌∷◌, Bool, true, false, not, ◌||◌, Option, none, some, contains, nat_eq,
  list_eq, ◌==◌, if◌then◌else◌, list_beq,
}
use auto_lfs_builder.Text.{Text, is_nil, lower_char}
use auto_lfs_builder.Menuconfig.Edit.{Key, key_resize, char}
use auto_lfs_builder.Menuconfig.Kconf.{Kind, Tri, bool_kind, tristate_kind, tri_to_str}
use auto_lfs_builder.Menuconfig.Navigate.{State, resize_main}

-- What is done to files, with the values that are written or were read.
pub data Event (V : Type 0) : Type 0 where
  config_written min_config_written config_loaded : Text → V → Event V
  write_failed load_failed : Text → Event V

-- `sym.user_value`: a tristate, or a text.
pub data UserValue : Type 0 where
  tri_user : Tri → UserValue
  text_user : Text → UserValue

-- What `_needs_save` looks at.
pub record Sym : Type 0 where
  pub user_value : Option UserValue
  pub config_string : Text
  pub orig_type : Kind
  pub tri_value : Tri
  pub str_value : Text

-- The functions of kconfiglib and of `os` that read and write. What they do may depend on all that was
-- done before, the newest first; `none` is an OSError, after which the values are as before.
pub record Files (V : Type 0) : Type 0 where
  pub write_config : List (Event V) → V → Text → Option Text
  pub write_min_config : List (Event V) → V → Text → Option Text
  pub load_config : List (Event V) → Text → Option V
  pub expand_user : Text → Text
  -- whether `missing_syms` has an element
  pub has_missing_syms : V → Bool
  pub unique_defined_syms : V → List Sym

pub record Session (V : Type 0) : Type 0 where
  pub menu : State V
  pub conf_filename : Text
  pub minconf_filename : Text
  pub show_help : Bool
  pub show_name : Bool
  pub events : List (Event V)

abbrev is_tri_kind : Kind → Bool
is_tri_kind bool_kind = true
is_tri_kind tristate_kind = true
is_tri_kind _ = false

unfoldable pub is_outdated : Sym → Bool
unfolding list_beq
is_outdated sym = elim sym.user_value [
  | none ↦ not (is_nil sym.config_string)
  | some (tri_user t) ↦
      if is_tri_kind sym.orig_type then not (tri_to_str sym.tri_value == tri_to_str t) else true
  | some (text_user t) ↦ if is_tri_kind sym.orig_type then true else not (sym.str_value == t)
]

unfoldable pub any_outdated : List Sym → Bool
unfolding is_outdated
any_outdated [] = false
any_outdated (sym ∷ syms) = is_outdated sym || any_outdated syms

-- `_SHOW_HELP_HEIGHT`, and the number of `_MAIN_HELP_LINES`
abbrev pub help_height : Bool → ℕ
help_height true = 8
help_height false = 4

-- The rows that are left to the list.
unfoldable pub menu_rows : Bool → ℕ → ℕ
menu_rows show_help screen_height = screen_height - help_height show_help - 3

-- What a key does to a dialog that waits for one of some keys.
pub data Pressed : Type 0 where
  ignored resized escaped : Pressed
  chosen : ℕ → Pressed

unfoldable pub dialog_key : Text → Key → Pressed
unfolding lower_char contains
dialog_key keys key_resize = resized
dialog_key keys (char c) =
    if c == 0x1b
    then escaped
    else if contains (lower_char c) keys
    then chosen (lower_char c)
    else ignored
dialog_key keys _ = ignored

module _ {V : Type 0} where
  abbrev pub resize : ℕ → Session V → Session V
  resize screen_height s = record s {
    menu = resize_main (menu_rows s.show_help screen_height) s.menu;
  }

  -- `_key_dialog`: the key that closed it, `none` for Escape. Each key comes with the height of the
  -- screen.
  unfoldable pub key_dialog : Text → List (Key × ℕ) → Session V → Option ℕ × Session V
  unfolding dialog_key resize_main
  key_dialog keys [] s = (none, s)
  key_dialog keys ((c, height) ∷ inputs) s = elim (dialog_key keys c) [
    | ignored ↦ key_dialog keys inputs s
    | resized ↦ key_dialog keys inputs (resize height s)
    | escaped ↦ (none, s)
    | chosen k ↦ (some k, s)
  ]

module _ {V : Type 0} (files : Files V) where
  unfoldable pub needs_save : V → Bool
  unfolding any_outdated
  needs_save v =
      if files.has_missing_syms v then true else any_outdated (files.unique_defined_syms v)

  -- `_try_save` of a whole and of a minimal configuration, up to its error dialog.
  unfoldable pub try_save : Text → Session V → Option Text × Session V
  try_save filename s = elim (files.write_config s.events s.menu.values filename) [
    | none ↦ (none, record s { events = write_failed filename ∷ s.events })
    | some msg ↦ (some msg, record s { events = config_written filename s.menu.values ∷ s.events })
  ]

  unfoldable pub try_save_min : Text → Session V → Option Text × Session V
  try_save_min filename s = elim (files.write_min_config s.events s.menu.values filename) [
    | none ↦ (none, record s { events = write_failed filename ∷ s.events })
    | some msg ↦
        (some msg, record s { events = min_config_written filename s.menu.values ∷ s.events })
  ]

  -- `if msg:`
  abbrev pub is_set : Option Text → Bool
  is_set none = false
  is_set (some msg) = not (is_nil msg)

  -- Over what the input dialog returns; the dialogs with a message are closed. `none` follows a list
  -- that ends.
  unfoldable pub save_dialog :
      (Text → Session V → Option Text × Session V)
      → List (Option Text)
      → Session V
      → Option Text × Session V
  save_dialog save [] s = (none, s)
  save_dialog save (none ∷ answers) s = (none, s)
  save_dialog save (some text ∷ answers) s =
      let (msg, tried) = save (files.expand_user text) s in
      let rest = save_dialog save answers tried in
      if is_set msg then (some (files.expand_user text), tried) else rest

  -- The keys s and d.
  unfoldable pub save : List (Option Text) → Session V → Session V
  unfolding save_dialog try_save
  save answers s =
      let (filename, tried) = save_dialog try_save answers s in
      elim filename [
        | none ↦ tried
        | some f ↦ if is_nil f then tried else record tried {
          conf_filename = f;
          menu = record tried.menu { conf_changed = false };
        }
      ]

  unfoldable pub save_min : List (Option Text) → Session V → Session V
  unfolding save_dialog try_save_min
  save_min answers s =
      let (filename, tried) = save_dialog try_save_min answers s in
      elim filename [
        | none ↦ tried
        | some f ↦ if is_nil f then tried else record tried { minconf_filename = f }
      ]
