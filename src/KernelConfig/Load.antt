-- ===== src/KernelConfig/Load.antt =====
-- `load_kconfig` of kernel-config.py: the lines of a file, and of the files that it names.
use auto_lfs_builder.Prelude.{
  ℕ, zero, suc, List, [], ◌∷◌, ◌++◌, map, drop, Bool, true, false, not, ◌&&◌, ◌||◌, Option, none,
  some, nat_eq, list_eq, list_beq, ◌==◌, if◌then◌else◌, Dict,
}
use auto_lfs_builder.Text.{Text, codes, is_nil, strip, lstrip_by, rstrip_by, starts_with, cons_head}
use auto_lfs_builder.KernelConfig.Lines.{expand_var, split_words, split_and_from, quote}
use auto_lfs_builder.KernelConfig.Stack.{
  State, index_error, no_file, out_of_fuel, Result, ok, raise, ◌>>=◌, pop_stack, pop_stack_while,
  cur_if,
}
use auto_lfs_builder.KernelConfig.Entry.{Entry, Setting, parse_config}

-- The lines of a file, each with its line feed.
unfoldable pub file_lines : Text → List Text
unfolding cons_head
file_lines [] = []
file_lines (c ∷ s) =
    let rest = file_lines s in if c == 0xa then (c ∷ []) ∷ rest else cons_head c rest

unfoldable pub is_indented : Text → Bool
unfolding starts_with
is_indented line = starts_with (codes "\t") line || starts_with (codes "    ") line

abbrev pub is_menu_key : Text → Bool
is_menu_key x = x == codes "menu"

-- `endmenu` and `endchoice`
unfoldable pub close_menu : State → Result State
unfolding pop_stack_while pop_stack list_beq
close_menu s = do s' ← pop_stack_while (λ x. not (is_menu_key x)) s; pop_stack is_menu_key s'

unfoldable pub open_if : Text → State → State
unfolding split_and_from strip cur_if
open_if line s = record s {
  if_stack = (cur_if s ++ map strip (split_and_from false (drop 3 line))) ∷ s.if_stack;
}

unfoldable pub close_if : State → State
close_if s = record s { if_stack = drop 1 s.if_stack }

-- The name behind `source`.
unfoldable pub source_name : Text → Result Text
unfolding strip split_words expand_var lstrip_by rstrip_by
source_name line = second (split_words (strip line))
  where
    second : List Text → Result Text
    second (word ∷ name ∷ rest) =
        ok (expand_var (rstrip_by (λ c. c == quote) (lstrip_by (λ c. c == quote) name)))
    second _ = raise index_error

-- The branches of the tests of a line outside of an entry.
pub data Directive : Type 0 where
  source config endmenu if_ endif other : Directive

unfoldable pub directive_of : Text → Directive
unfolding starts_with
directive_of line =
    if starts_with (codes "source") line || starts_with (codes "\tsource") line
    then source
    else if starts_with (codes "config") line || starts_with (codes "menu") line
    then config
    else if starts_with (codes "choice") line
    then config
    else if starts_with (codes "endmenu") line || starts_with (codes "endchoice") line
    then endmenu
    else if starts_with (codes "if ") line
    then if_
    else if starts_with (codes "endif") line
    then endif
    else other

-- The files by their names below the kernel tree.
module _ (files : Text → Option Text) (known_config : Dict Text Setting) where
  unfoldable pub flush : List Text → State → Result (List Entry × State)
  unfolding parse_config
  flush [] s = ok ([], s)
  flush (head ∷ rest) s = do
    (entry, s') ← parse_config known_config head rest s
    ok (entry ∷ [], s')

  -- What a line does: what it adds to `r`, the new `config_buf` and the state.
  unfoldable pub act :
      (Text → State → Result (List Entry × State))
      → Directive
      → Text
      → State
      → Result (List Entry × List Text × State)
  unfolding source_name close_menu open_if close_if
  act load source line s = do sub ← source_name line; (r, s') ← load sub s; ok (r, [], s')
  act load config line s = ok ([], line ∷ [], s)
  act load endmenu line s = do s' ← close_menu s; ok ([], [], s')
  act load if_ line s = ok ([], [], open_if line s)
  act load endif line s = ok ([], [], close_if s)
  act load other line s = ok ([], [], s)

  -- The loop over the lines, with the lines of the entry that is being read.
  unfoldable pub load_lines :
      (Text → State → Result (List Entry × State))
      → List Text
      → List Text
      → State
      → Result (List Entry × State)
  unfolding is_indented flush directive_of act
  load_lines load [] config_buf s = flush config_buf s
  load_lines load (line ∷ lines) config_buf s = elim (not (is_nil config_buf) && is_indented line) [
    | true ↦ load_lines load lines (config_buf ++ line ∷ []) s
    | false ↦ do
      (before, s1) ← flush config_buf s
      (sourced, buf, s2) ← act load (directive_of line) line s1
      (after, s3) ← load_lines load lines buf s2
      ok (before ++ (sourced ++ after), s3)
  ]

  -- With a bound on the depth of the files that source each other.
  unfoldable pub load_kconfig : ℕ → Text → State → Result (List Entry × State)
  unfolding load_lines file_lines
  load_kconfig zero file s = raise out_of_fuel
  load_kconfig (suc fuel) file s = elim (files file) [
    | none ↦ raise (no_file file)
    | some text ↦ load_lines (load_kconfig fuel) (file_lines text) [] s
  ]
