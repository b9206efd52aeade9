-- ===== src/KernelConfig/Copies/Glfs.antt =====
-- docs/glfs/kernel-config/kernel-config.py, function by function.
use auto_lfs_builder.Prelude.{Bool, List, Option, Dict, ℕ}
use auto_lfs_builder.Text.{Text}
use auto_lfs_builder.KernelConfig.Lines
use auto_lfs_builder.KernelConfig.Stack
use auto_lfs_builder.KernelConfig.Stack.{State, Key, Result}
use auto_lfs_builder.KernelConfig.Entry
use auto_lfs_builder.KernelConfig.Entry.{Setting}
use auto_lfs_builder.KernelConfig.Load
use auto_lfs_builder.KernelConfig.Mark
use auto_lfs_builder.KernelConfig.Layout
use auto_lfs_builder.KernelConfig.Layout.{Row}
use auto_lfs_builder.KernelConfig.Program
use auto_lfs_builder.KernelConfig.Copies.Letter.{copied}

unfoldable pub expand_var : Text → Text
unfolding Lines.expand_var
expand_var s = Lines.expand_var s

unfoldable pub pop_stack : (Text → Bool) → State → Result State
unfolding Stack.pop_stack
pop_stack cond s = Stack.pop_stack cond s

unfoldable pub pop_stack_while : (Text → Bool) → State → Result State
unfolding Stack.pop_stack_while
pop_stack_while cond s = Stack.pop_stack_while cond s

unfoldable pub cur_menu : State → ℕ
unfolding Stack.cur_menu
cur_menu s = Stack.cur_menu s

unfoldable pub cur_if : State → List Text
unfolding Stack.cur_if
cur_if s = Stack.cur_if s

unfoldable pub clean_dep : Text → Text
unfolding Lines.clean_dep
clean_dep d = Lines.clean_dep d

unfoldable pub parse_config :
    Dict Text Setting → Text → List Text → State → Result (Entry.Entry × State)
unfolding Entry.parse_config
parse_config known_config head rest s = Entry.parse_config known_config head rest s

unfoldable pub load_kconfig :
    (Text → Option Text) → Dict Text Setting → ℕ → Text → State → Result (List Entry.Entry × State)
unfolding Load.load_kconfig
load_kconfig files known_config fuel file s = Load.load_kconfig files known_config fuel file s

unfoldable pub mark_all : Dict Key Key → List Entry.Entry → Result (List Entry.Entry)
unfolding Mark.mark_all
mark_all main_dep r = Mark.mark_all main_dep r

unfoldable pub rows : List Entry.Entry → List Row
unfolding Layout.rows
rows r = Layout.rows r

unfoldable pub line_of : Dict ℕ ℕ → Row → Result Text
unfolding Layout.line_of
line_of longest row = Layout.line_of copied longest row

unfoldable pub print_rows : Dict ℕ ℕ → List Row → List Text → Result (List Text)
unfolding Layout.print_rows
print_rows longest r buf = Layout.print_rows copied longest r buf

unfoldable pub screen : (Text → Option Text) → Dict Text Setting → ℕ → Result (List Text)
unfolding Program.screen
screen files known_config fuel = Program.screen copied files known_config fuel

unfoldable pub program :
    (render : Text → List Text → Text) (str_of : Setting → Text)
    → (Text → Option Text)
    → Dict Text Setting
    → ℕ
    → Result Text
unfolding Program.program
program render str_of files known_config fuel =
    Program.program copied render str_of files known_config fuel
