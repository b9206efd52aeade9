-- ===== src/LfsParser/Commands.antt =====
-- `clean_command`, `is_build_command` and `extract_build_commands` of src/parsers/lfs_parser.py.
use auto_lfs_builder.Prelude.{
  ℕ, List, [], ◌∷◌, ◌++◌, map, Bool, not, ◌&&◌, ◌||◌, Option, none, some, nat_eq, list_eq, ◌==◌,
  if◌then◌else◌,
}
use auto_lfs_builder.Text.{Text, codes, is_nil, is_space, strip, splitlines, join, starts_with}
use auto_lfs_builder.Regex.{
  Pattern, at_start, one, many, capture, any_char, none_of, letters, sub, find_all,
}
use auto_lfs_builder.Outside.{FilePath, Files, BeautifulSoup}

-- `^[#$]\s*`
unfoldable pub prompt_pattern : Pattern
unfolding is_space
prompt_pattern = at_start ∷ one (λ c. c == b'#' || c == b'$') ∷ many is_space ∷ []

-- The body of the loop over the lines.
unfoldable pub clean_line : Text → Text
unfolding strip sub prompt_pattern
clean_line line = sub prompt_pattern [] (strip line)

unfoldable pub clean_command : Text → Text
unfolding clean_line splitlines join
clean_command text = join (0xa ∷ []) (map clean_line (splitlines (strip text)))

unfoldable pub is_build_command : Text → Bool
unfolding starts_with
is_build_command cmd = not (is_nil cmd) && not (starts_with (codes "#") cmd)

abbrev pub is_quote : ℕ → Bool
is_quote c = c == 0x27 || c == 0x22

-- `<pre[^>]*class=['"]userinput['"][^>]*>(.*?)</pre>`
unfoldable pub pre_pattern : Pattern
unfolding letters
pre_pattern =
    letters (codes "<pre")
    ++ (many (none_of b'>')
        ∷ (letters (codes "class=")
            ++ (one is_quote
                ∷ (letters (codes "userinput")
                    ++ (one is_quote
                        ∷ many (none_of b'>')
                        ∷ one (λ c. c == b'>')
                        ∷ capture any_char
                        ∷ letters (codes "</pre>"))))))

-- `<userinput[^>]*>(.*?)</userinput>`
unfoldable pub userinput_pattern : Pattern
unfolding letters
userinput_pattern =
    letters (codes "<userinput")
    ++ (many (none_of b'>')
        ∷ one (λ c. c == b'>')
        ∷ capture any_char
        ∷ letters (codes "</userinput>"))

-- The loops that clean each block and append what is a build command.
unfoldable pub collect : List Text → List Text → List Text
unfolding clean_command is_build_command
collect commands [] = commands
collect commands (block ∷ blocks) =
    let cmd = clean_command block in
    collect (if is_build_command cmd then commands ++ cmd ∷ [] else commands) blocks

-- The branch with BeautifulSoup: the `<pre>` blocks, then the `<userinput>` blocks.
unfoldable pub soup_blocks : BeautifulSoup → Text → List Text
soup_blocks bs text =
    let soup = bs.html_parser text in
    map bs.get_text (bs.find_pre_userinput soup ++ bs.find_userinput soup)

-- The branch without it.
unfoldable pub regex_commands : Text → List Text
unfolding collect find_all pre_pattern userinput_pattern
regex_commands text =
    collect (collect [] (find_all pre_pattern text)) (find_all userinput_pattern text)

unfoldable pub commands_of_text : Option BeautifulSoup → Text → List Text
unfolding collect soup_blocks regex_commands
commands_of_text (some bs) text = collect [] (soup_blocks bs text)
commands_of_text none text = regex_commands text

-- `none` is the exception of `read_text`.
unfoldable pub extract_build_commands : Option BeautifulSoup → Files → FilePath → Option (List Text)
unfolding commands_of_text
extract_build_commands bs files chapter_file = elim (files.read_text chapter_file) [
  | some text ↦ some (commands_of_text bs text)
  | none ↦ none
]
