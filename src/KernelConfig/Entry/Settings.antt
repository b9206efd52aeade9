-- ===== src/KernelConfig/Entry/Settings.antt =====
-- What the TOML file gives for a symbol, and how `parse_config` of kernel-config.py shows it.
use auto_lfs_builder.Prelude.{
  ℕ, List, [], ◌∷◌, ◌++◌, map, Bool, false, not, ◌&&◌, ◌||◌, Option, none, some, nat_eq, list_eq,
  list_beq, ◌==◌, if◌then◌else◌, contains, Dict, lookup,
}
use auto_lfs_builder.Text.{Text, codes, is_nil, join}
use auto_lfs_builder.KernelConfig.Lines.{sort_chars}
use auto_lfs_builder.KernelConfig.Stack.{
  assertion_error, unknown_setting, no_value, Result, ok, raise,
}

-- A comment is a string or a list of strings, and `forced` a Boolean or a string.
pub data Comment : Type 0 where
  one_line : Text → Comment
  many_lines : List Text → Comment

pub data Forced : Type 0 where
  flag : Bool → Forced
  sign : Text → Forced

-- What the TOML file gives for a symbol.
pub data Setting : Type 0 where
  plain : Text → Setting
  table : (value : Option Text) (comment : Option Comment) (forced : Option Forced) → Setting

-- The setting, the comment and `forced` of a symbol.
unfoldable pub setting_of :
    Dict Text Setting → Option Text → Result (Option Text × Option Comment × Option Forced)
unfolding lookup
setting_of known_config none = ok (none, none, none)
setting_of known_config (some key) = of_setting (lookup key known_config)
  where
    of_setting : Option Setting → Result (Option Text × Option Comment × Option Forced)
    of_setting none = ok (none, none, none)
    of_setting (some (plain val)) = ok (some val, none, none)
    of_setting (some (table none comment forced)) = raise no_value
    of_setting (some (table (some val) comment forced)) = ok (some val, comment, forced)

-- `bool(forced)` and `forced != '*'`
unfoldable pub is_forced : Option Forced → Bool
is_forced none = false
is_forced (some (flag b)) = b
is_forced (some (sign t)) = not (is_nil t)

unfoldable pub is_star : Option Forced → Bool
unfolding list_beq
is_star none = false
is_star (some (flag b)) = false
is_star (some (sign t)) = t == codes "*"

-- The first character of a setting that its class does not allow.
unfoldable pub bad_setting : Text → Text → Option ℕ
unfolding contains list_beq
bad_setting klass [] = none
bad_setting klass (c ∷ val) =
    let rest = bad_setting klass val in
    if not (contains c (codes "M* ")) || (c == b'M' && not (klass == codes "tristate"))
    then some c
    else rest

unfoldable pub bracket : Text → Option Forced → ℕ × ℕ
unfolding is_forced is_star list_beq
bracket klass forced =
    if klass == codes "tristate" && not (is_star forced)
    then (if is_forced forced then (b'{', b'}') else (b'<', b'>'))
    else (if is_forced forced then (b'-', b'-') else (b'[', b']'))

-- A setting that is not empty, for a symbol of class bool or tristate.
unfoldable pub show_choice : Bool → Text → Option Forced → Option Text → Text → Result (Option Text)
unfolding sort_chars bad_setting bracket list_beq join
show_choice in_choice klass forced key val =
    let sorted = sort_chars val in
    let (left, right) = bracket klass forced in
    let is_x = val == codes "X" in
    if not (if is_x then in_choice else not in_choice)
    then raise assertion_error
    else if is_x
    then ok (some (codes "(X)"))
    else elim (bad_setting klass sorted) [
      | some c ↦ raise (unknown_setting c key)
      | none ↦ ok (some (left ∷ (join (codes "/") (map (λ c. c ∷ []) sorted) ++ right ∷ [])))
    ]

unfoldable pub show_setting :
    Bool → Text → Option Forced → Option Text → Option Text → Result (Option Text)
unfolding show_choice list_beq
show_setting in_choice klass forced key none = ok none
show_setting in_choice klass forced key (some val) =
    if is_nil val
    then ok (some val)
    else if klass == codes "string"
    then ok (some (codes "(" ++ (val ++ codes ")")))
    else show_choice in_choice klass forced key val
