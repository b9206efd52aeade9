-- ===== src/KernelConfig/Entry.antt =====
-- `parse_config` of kernel-config.py: one entry of a Kconfig file, its place below the entries on
-- the stack, and how its setting is shown.
mod Settings
mod Scanning
unfoldable pub use Settings.*
unfoldable pub use Scanning.*
use auto_lfs_builder.Prelude.{
  ℕ, ◌+◌, List, [], ◌∷◌, ◌++◌, map, drop, take, Bool, false, not, ◌&&◌, ◌||◌, Option, none, some,
  nat_eq, list_eq, list_beq, ◌==◌, if◌then◌else◌, contains, Dict, lookup,
}
use auto_lfs_builder.Text.{Text, codes, is_nil, strip, starts_with, join}
use auto_lfs_builder.KernelConfig.Lines.{
  clean_dep, split_words, split_and_from, quote, after_quote, clean_title, sort_chars,
}
use auto_lfs_builder.KernelConfig.Stack.{
  Key, symbol, number, Frame, State, assertion_error, index_error, unknown_setting, no_value,
  Result, ok, raise, ◌>>=◌, has_choice_bit, clear_choice_bit, set_choice_bit, pop_stack_while,
  cur_menu, cur_if, push_frame,
}

-- The list `r` that `parse_config` returns.
pub record Entry : Type 0 where
  pub ind0 : ℕ
  pub val : Option Text
  pub ind1 : ℕ
  pub title : Option Text
  pub arrow : Text
  pub internal_key : Key
  pub menu : ℕ
  pub comment : Option Comment

-- `None` for a menu and a choice, else the second word of the line.
unfoldable pub key_of : Bool → Text → Result (Option Text)
unfolding split_words
key_of is_nonconfig_menu head = if is_nonconfig_menu then ok none else second (split_words head)
  where
    second : List Text → Result (Option Text)
    second (word ∷ key ∷ rest) = ok (some key)
    second _ = raise index_error

-- `main_dep[internal_key] = fa` where the stack is not empty.
unfoldable pub note_main_dep : Key → State → State
unfolding list_beq
note_main_dep internal_key s = record s {
  main_dep = elim s.stack [
    | [] ↦ s.main_dep
    | top ∷ frames ↦
        let fa : Key =
          if top.key == codes "menu" then number (clear_choice_bit top.menu) else symbol top.key in
        (internal_key, fa) ∷ s.main_dep
  ];
}

abbrev pub or_menu_id : Option Text → State → Key
or_menu_id none s = number s.menu_id
or_menu_id (some key) s = symbol key

abbrev pub or_default : Option Text → Text → Text
or_default none t = t
or_default (some t) _ = t

unfoldable pub shown_title : Option Text → Option Text
unfolding clean_title
shown_title none = none
shown_title (some t) = if is_nil t then some t else some (clean_title t)

-- The frame that is pushed: a menu indents its settings, another entry with a title its titles.
unfoldable pub frame_of : (is_menu is_choice : Bool) → Option Text → Option Text → State → Frame
unfolding cur_menu
frame_of is_menu is_choice key title s =
    let menu = if is_menu then s.menu_id else cur_menu s in
    let shown : Bool = elim title [ none ↦ false | some t ↦ not (is_nil t) ] in
    record {
      key = or_default key (codes "menu");
      i0 = if is_menu then 2 else 0;
      i1 = if is_menu then 0 else (if shown then 2 else 0);
      menu = if is_choice then set_choice_bit menu else menu;
    }

-- `menu_id += is_menu`
unfoldable pub count_menu : Bool → State → State
count_menu is_menu s = if is_menu then record s { menu_id = s.menu_id + 1 } else s

-- The setting of the placed entry is shown, the entry is returned and its frame pushed.
unfoldable pub settle :
    Dict Text Setting
    → (is_menu is_choice : Bool) → Option Text
    → Scan
    → State
    → Result (Entry × State)
unfolding setting_of show_setting shown_title frame_of cur_menu push_frame
settle known_config is_menu is_choice key scan s =
    let title = shown_title scan.title in
    do
      (val, comment, forced) ← setting_of known_config key
      shown ←
          show_setting (has_choice_bit (cur_menu s)) (or_default scan.klass (codes "string")) forced
            key val
      let entry : Entry = record {
        ind0 = s.ind0;
        val = shown;
        ind1 = s.ind1;
        title = title;
        arrow = if is_menu then codes " --->" else [];
        internal_key = or_menu_id key s;
        menu = cur_menu s;
        comment = comment;
      }
      ok (entry, push_frame (frame_of is_menu is_choice key title s) s)

-- What follows the loop: the entry is placed below the first frame that it depends on.
unfoldable pub place :
    Dict Text Setting
    → (is_menu is_choice : Bool) → Option Text
    → Scan
    → State
    → Result (Entry × State)
unfolding pop_stack_while count_menu note_main_dep settle
place known_config is_menu is_choice key scan s = do
  popped ← pop_stack_while (λ x. not (contains x scan.deps)) s
  let counted = count_menu is_menu popped
  settle known_config is_menu is_choice key scan (note_main_dep (or_menu_id key counted) counted)

-- The tests of the first line.
unfoldable pub is_choice_line : Text → Bool
unfolding strip list_beq
is_choice_line head = strip head == codes "choice"

unfoldable pub is_menu_line : Text → Bool
unfolding starts_with is_choice_line
is_menu_line head = starts_with (codes "menu") head || is_choice_line head

unfoldable pub is_nonconfig_menu_line : Text → Bool
unfolding starts_with is_choice_line
is_nonconfig_menu_line head = starts_with (codes "menu ") head || is_choice_line head

-- The variables before the loop.
unfoldable pub scan_start : Text → State → Scan
unfolding is_nonconfig_menu_line cur_if
scan_start head s = record {
  deps = codes "menu" ∷ cur_if s;
  title = if is_nonconfig_menu_line head then some (drop 5 head) else none;
  klass = none;
}

-- `buf` is its first line and the others.
unfoldable pub parse_config : Dict Text Setting → Text → List Text → State → Result (Entry × State)
unfolding is_choice_line is_menu_line is_nonconfig_menu_line key_of scan_start scan_lines place
parse_config known_config head rest s = do
  key ← key_of (is_nonconfig_menu_line head) head
  place known_config (is_menu_line head) (is_choice_line head) key
      (scan_lines rest (scan_start head s)) s
