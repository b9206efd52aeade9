-- ===== src/KernelConfig/Entry/Scanning.antt =====
-- The loop of `parse_config` of kernel-config.py over the lines of an entry.
use auto_lfs_builder.Prelude.{
  ℕ, ◌+◌, List, [], ◌∷◌, ◌++◌, map, drop, take, false, ◌&&◌, ◌||◌, Option, some, nat_eq, list_eq,
  list_beq, ◌==◌, if◌then◌else◌, contains,
}
use auto_lfs_builder.Text.{Text, codes, strip, starts_with}
use auto_lfs_builder.KernelConfig.Lines.{clean_dep, split_and_from, quote, after_quote}

-- The variables that the loop over the lines of the entry changes.
pub record Scan : Type 0 where
  pub deps : List Text
  pub title : Option Text
  pub klass : Option Text

-- `x.split('&&')` with every part cleaned.
unfoldable pub clean_deps : Text → List Text
unfolding split_and_from clean_dep
clean_deps text = map clean_dep (split_and_from false text)

-- The condition behind the title of a line.
unfoldable pub scan_tail : Text → Scan → Scan
unfolding contains after_quote strip clean_deps
scan_tail line s =
    let tail = strip (after_quote line) in
    if contains quote line && take 3 tail == codes "if "
    then record s { deps = s.deps ++ clean_deps (drop 3 tail) }
    else s

-- The body of the loop over the prefixes, for one of them.
unfoldable pub scan_prefix : Text → ℕ → Text → Scan → Scan
unfolding starts_with list_beq scan_tail
scan_prefix prefix size line s =
    if starts_with (prefix ++ codes " ") line
    then scan_tail line (record s { title = some (drop (size + 1) line); klass = some prefix })
    else if line == prefix || starts_with (codes "def_" ++ (prefix ++ codes " ")) line
    then scan_tail line (record s { klass = some prefix })
    else s

-- The body of the loop over the lines.
unfoldable pub scan_line : Text → Scan → Scan
unfolding strip starts_with scan_prefix clean_deps
scan_line raw s =
    let line = strip raw in
    if starts_with (codes "depends on ") line
    then record s { deps = s.deps ++ clean_deps (drop 11 line) }
    else if starts_with (codes "prompt") line
    then record s { title = some (drop 7 line) }
    else scan_prefix (codes "string") 6 line
        (scan_prefix (codes "bool") 4 line (scan_prefix (codes "tristate") 8 line s))

unfoldable pub scan_lines : List Text → Scan → Scan
unfolding scan_line
scan_lines [] s = s
scan_lines (raw ∷ rest) s = scan_lines rest (scan_line raw s)
