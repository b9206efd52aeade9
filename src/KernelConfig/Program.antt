-- ===== src/KernelConfig/Program.antt =====
-- The whole of kernel-config.py, from the files to the document.
use auto_lfs_builder.Prelude.{
  ℕ, List, [], ◌++◌, Option, none, some, nat_eq, list_eq, if◌then◌else◌, Dict, lookup, keys,
}
use auto_lfs_builder.Text.{Text, codes, is_nil}
use auto_lfs_builder.KernelConfig.Stack.{start, Result, ok, ◌>>=◌}
use auto_lfs_builder.KernelConfig.Entry.{Setting, plain, table}
use auto_lfs_builder.KernelConfig.Load.{load_kconfig}
use auto_lfs_builder.KernelConfig.Mark.{mark_all}
use auto_lfs_builder.KernelConfig.Layout.{Variant, Row, rows, max_val_len, check_done, print_rows}

-- The entries that are shown.
unfoldable pub shown_rows : (Text → Option Text) → Dict Text Setting → ℕ → Result (List Row)
unfolding load_kconfig mark_all rows
shown_rows files known_config fuel = do
  (r, s) ← load_kconfig files known_config fuel (codes "Kconfig") start
  marked ← mark_all s.main_dep r
  ok (rows marked)

-- The lines that are printed.
unfoldable pub screen : Variant → (Text → Option Text) → Dict Text Setting → ℕ → Result (List Text)
unfolding shown_rows check_done max_val_len print_rows keys
screen variant files known_config fuel = do
  r ← shown_rows files known_config fuel
  _ ← check_done r (keys known_config)
  print_rows variant (max_val_len [] r) r []

-- `' revision="%s"' % rev if rev else ''`, where `str_of` gives the text of a table.
unfoldable pub revision : (Setting → Text) → Option Setting → Text
revision str_of none = []
revision str_of (some (plain rev)) =
    if is_nil rev then [] else codes " revision=\"" ++ (rev ++ codes "\"")
revision str_of (some (table none none none)) = []
revision str_of (some other) = codes " revision=\"" ++ (str_of other ++ codes "\"")

-- What is printed: `render` is the template of jinja2, applied to `rev` and `buf`.
unfoldable pub program :
    Variant
    → (render : Text → List Text → Text) (str_of : Setting → Text) → (Text → Option Text)
    → Dict Text Setting
    → ℕ
    → Result Text
unfolding screen revision lookup
program variant render str_of files known_config fuel = do
  buf ← screen variant files known_config fuel
  ok (render (revision str_of (lookup (codes "revision") known_config)) buf)
