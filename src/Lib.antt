-- ===== src/Lib.antt =====
-- Auto-LFS-Builder reads the documentation of Linux From Scratch and turns it into builds. Its
-- Python core is the package src/parsers, which this library models whole, with the program that
-- writes the kernel options of the books, the one that writes their change logs, and the core of the
-- menu that jhalfs is configured in:
--
--   LfsParser  src/parsers/lfs_parser.py
--     Commands      clean_command, is_build_command, extract_build_commands
--     Dependencies  resolve_dependencies
--     Xml           parse_xml, over what lxml returns
--   Resolver   src/parsers/dependency_resolver.py
--     Build         build_dependency_graph and the command
--     Sort          topological_sort: `State` is what its inner function visit closes over
--   Analyzer   src/parsers/package_analyzer.py, which calls the two functions of LfsParser
--   Merger     src/parsers/documentation_merger.py
--   KernelConfig  docs/lfs-git/chapter10/kernel/kernel-config.py
--     Lines, Stack, Entry, Load  the methods on text, the global variables and their stack,
--                   parse_config, load_kconfig
--     Mark          what the selected entries need is marked as used
--     Layout        the shown entries, in lines of 80 columns
--     Program       the parts in their order, from the files to the document
--     Copies        the copies in docs/blfs-git/kernel-config and docs/glfs/kernel-config, which
--                   find the letter that is marked, and print blank lines of comments, in their way
--   KernelVersion docs/lfs-git/chapter10/kernel/kernel_version.py, over the lines of the Makefile
--   Changelog     docs/lfs-git/gen-changelog.py
--     Entity        get_entity, expand_entity
--     Packages      the entities of the difference and the packages added, removed and updated
--     Tickets       the tickets of the pages that are read
--     Report        both reports and the whole run
--   Menuconfig    docs/jhalfs/menu/menuconfig.py
--     Edit          _edit_text and the loop of _input_dialog
--     Kconf         what is used of kconfiglib, as a parameter
--     Shown         _visible, _parent_menu, _shown_nodes
--     Navigate      `State` is the global variables; _enter_menu, _leave_menu, _jump_to,
--                   _toggle_show_all, the moves in a menu, and the end of _resize_main
--     Change        _set_val, _update_menu, _set_sel_node_tri_val, and the start of the menu
--     Number        `int` of a text, and _check_valid
--     ChangeNode    _changeable and _change_node
--     Loop          the loop of _menuconfig, for the keys that change the display alone
--     Session       `Session` is the rest of the global variables, `Files` the functions of kconfiglib
--                   for files; _needs_save, _try_save, _save_dialog, _key_dialog
--     Quit          _quit_dialog, with the dialog that opens when a save fails
--     Entry         _node_str, _should_show_name, _value_str
--     Search        the sorted nodes, and which of them a search text matches
--     JumpDialog    the loop of _jump_to_dialog
--     Run           the start, _load_dialog, and the loop with all of its keys
--     Editor        the specification of the edit box: a text with a gap in it
--
-- The other children of these modules hold proofs, and those called Samples hold runs on small
-- inputs and the theorems at concrete arguments. Resolver/Contract joins the parts: the resolver
-- repeats the parsing of lfs_parser.py in its own words, and the command is the graph followed by
-- the sort.
--
-- What the parts share: Prelude has the names of the libraries, equality tests, native list
-- functions and dictionaries in insertion order; Text has the string methods and Regex the part of
-- `re` that the source uses; Outside has the file system and BeautifulSoup, Xml has lxml, and Merger
-- has git, each as a parameter with no law assumed. A text is the list of its characters' codes.
--
-- An exception is a value: `none` where a file cannot be read and in Menuconfig, the result types
-- of Sort, Xml, Merger, KernelConfig and Changelog elsewhere. What is printed, logged and pulled is
-- a list of events.
--
-- The function visit calls itself along edges of the graph. `visit` has a bound on the depth of
-- these calls, one more than the number of nodes; it is enough, since the nodes of the chain are
-- marked and distinct. Python's own limit on recursion is not modelled.
-- `load_kconfig` has a bound on the depth of the files that source each other; files in a circle
-- meet it, where the source does not end; else a bound above the depth of the tree is enough.
--
-- Bounds of the model: `lower` and IGNORECASE know ASCII letters only; white space and line breaks
-- are those of Python. The source puts the package name into a pattern a second time without
-- escaping it: a full stop there stands for any character, and names with other special characters
-- of `re` are outside the model. Of an `os.walk` the list that it yields is a parameter. A git that
-- is not installed, the parsing of command lines, and the default paths are left out.
--
-- `expand_entity` has a bound on how deep entities stand in each other's values; entities in a
-- circle meet it, where the source ends with Python's error on recursion; else a bound above the
-- depth is enough.
--
-- Settings of the TOML file are strings, or tables of a string, a comment and `forced`. The template
-- of jinja2, the text that `%s` gives for a table, what git and curl print, and the order in which
-- Python goes through a set are parameters. `isalpha` knows the letters of ASCII.
--
-- Not modelled: the reading of the TOML file and of the arguments; the copies of kernel_version.py
-- in docs/blfs-git and docs/glfs, which are the same text; the shell scripts, which only run
-- commands; docs/jhalfs/menu/kconfiglib.py, a copy of a library; and of menuconfig.py beside it the
-- drawing, and what shows information on an entry.
--
-- Of the nodes of a menu, kconfiglib's pointers list and next are a binary tree, and the chain of
-- parents is a list; what changes with the values of the symbols is a function of them. A height of
-- the window is at least 1, and the width of an edit box is not negative; `\w` knows ASCII only.
-- What the user answers to a dialog is given with the key that opens it; a list of answers that ends
-- is followed by Escape. The node that is jumped to from the information dialog is given in the same
-- way. The window is resized in the main loop, in the dialogs that ask for a key, and in the search,
-- not in the others. The order of texts is that of their codes.
--
-- What kconfiglib does with files may depend on all that was done to files before. A file is its
-- name, as text; a write or a load that fails leaves the values of the session as they are.
pub mod Prelude
pub mod Text
pub mod Regex
pub mod Outside
pub mod LfsParser
pub mod Resolver
pub mod Analyzer
pub mod Merger
pub mod KernelConfig
pub mod KernelVersion
pub mod Changelog
pub mod Menuconfig
