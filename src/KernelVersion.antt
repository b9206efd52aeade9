-- ===== src/KernelVersion.antt =====
-- docs/lfs-git/chapter10/kernel/kernel_version.py: the version in a kernel tree's Makefile.
pub mod Laws
pub mod Samples
use auto_lfs_builder.Prelude.{
  List, [], ◌∷◌, drop, Option, none, some, Bool, true, not, ◌||◌, if◌then◌else◌,
}
use auto_lfs_builder.Text.{Text, codes, is_nil, strip, starts_with, join}

-- The local variables.
pub record Version : Type 0 where
  pub version : Option Text
  pub patchlevel : Option Text
  pub sublevel : Option Text

abbrev pub unknown : Version
unknown = record { version = none; patchlevel = none; sublevel = none }

-- The body of the loop; the numbers are the lengths of the prefixes.
unfoldable pub read_line : Text → Version → Version
unfolding starts_with strip
read_line line v =
    if starts_with (codes "VERSION =") line
    then record v { version = some (strip (drop 9 line)) }
    else if starts_with (codes "PATCHLEVEL =") line
    then record v { patchlevel = some (strip (drop 12 line)) }
    else if starts_with (codes "SUBLEVEL =") line
    then record v { sublevel = some (strip (drop 10 line)) }
    else v

unfoldable pub read_lines : List Text → Version → Version
unfolding read_line
read_lines [] v = v
read_lines (line ∷ lines) v = read_lines lines (read_line line v)

-- `not x` for a variable that is `None` or a string.
unfoldable pub is_missing : Option Text → Bool
is_missing none = true
is_missing (some t) = is_nil t

abbrev pub or_empty : Option Text → Text
or_empty none = []
or_empty (some t) = t

-- The `assert` and the `return`; `none` is the `AssertionError`.
unfoldable pub joined : Option Text → Option Text → Option Text → Option Text
unfolding is_missing join
joined version patchlevel sublevel =
    if is_missing version || is_missing patchlevel || is_missing sublevel
    then none
    else some (join (codes ".") (or_empty version ∷ or_empty patchlevel ∷ or_empty sublevel ∷ []))

-- The lines are those of the Makefile.
unfoldable pub kernel_version : List Text → Option Text
unfolding read_lines joined
kernel_version lines = let v = read_lines lines unknown in joined v.version v.patchlevel v.sublevel
