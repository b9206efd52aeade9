-- ===== src/LfsParser/Samples.antt =====
-- Small inputs of the parser, and what it makes of them.
use auto_lfs_builder.Prelude.{
  ◌≡◌, refl, not, none, List, [], ◌∷◌, ◌++◌, All, map, contains, nat_eq, list_eq, arith,
}
use auto_lfs_builder.Text.{
  Text, codes, join, is_space, is_line_break, strip, starts_with, lower, rstrip_dots,
}
use auto_lfs_builder.Regex.{search_from}
use auto_lfs_builder.LfsParser.Commands.{
  clean_command, is_build_command, commands_of_text, regex_commands,
}
use auto_lfs_builder.LfsParser.Dependencies.{
  parse_deps, deps_of_text, regex_segment, depends_pattern,
}
use auto_lfs_builder.LfsParser.Transcript.{
  Entry, bare, root, user, written, line, IsEntry, clean_command-written, is_build_command-written,
}
use auto_lfs_builder.LfsParser.Origin.{Origin, builds, regex_commands-Origin}
use auto_lfs_builder.LfsParser.Recover.{Piece, IsPlain, render, regex_commands-render}
use auto_lfs_builder.LfsParser.Names.{IsName}
use auto_lfs_builder.LfsParser.Phrase.{comma_and, phrase}
use auto_lfs_builder.LfsParser.RoundTrip.{parse_deps-phrase}

clean_command_runs :
    clean_command (codes "\n  $ ./configure \n  make\n") ≡ codes "./configure\nmake"
unfolding clean_command
clean_command_runs = refl

abbrev pub page : Text
page =
    codes
      "<p>Run <PRE id='a' class=\"userinput\"># make</PRE> then <userinput>## no</userinput><userinput remap=\"x\">make install</userinput>"

commands_runs : commands_of_text none page ≡ codes "make" ∷ codes "make install" ∷ []
unfolding commands_of_text
commands_runs = refl

parse_deps_runs :
    parse_deps (codes "Bash, GCC,\n  none, and\tLinux Headers.")
    ≡ codes "Bash" ∷ codes "GCC" ∷ codes "Linux Headers" ∷ []
unfolding parse_deps
parse_deps_runs = refl

abbrev pub dependencies_xml : Text
dependencies_xml =
    codes
      "<bridgehead renderas='sect2'>Acl</bridgehead><x/><segmentedlist id='acl-depends'><segtitle>s</segtitle><seglistitem><seg>Attr, Bash and GCC</seg><seg>no</seg>"

deps_runs :
    deps_of_text none (codes "acl") dependencies_xml
    ≡ codes "Attr" ∷ codes "Bash" ∷ codes "GCC" ∷ []
unfolding deps_of_text regex_segment search_from depends_pattern parse_deps
deps_runs = refl

abbrev transcript : List Entry
transcript = bare [] ∷ user (codes "make -j4") ∷ []

transcript-IsEntry : All IsEntry (root (codes "cd src") ∷ transcript)
unfolding is_space is_line_break strip starts_with
transcript-IsEntry = ground arith

clean_command-written_example :
    clean_command (join (0xa ∷ []) (map written (root (codes "cd src") ∷ transcript)))
    ≡ join (0xa ∷ []) (map line (root (codes "cd src") ∷ transcript))
clean_command-written_example =
    clean_command-written (root (codes "cd src")) transcript transcript-IsEntry
      (unfold line in λ e. cc) (unfold line in λ e. cc)

abbrev remark : Entry
remark = root (codes "no command")

remark-IsEntry : All IsEntry (remark ∷ transcript)
unfolding is_space is_line_break strip starts_with
remark-IsEntry = ground arith

is_build_command-written_example :
    is_build_command (clean_command (join (0xa ∷ []) (map written (remark ∷ transcript))))
    ≡ not (starts_with (codes "#") (line remark))
is_build_command-written_example =
    is_build_command-written remark transcript remark-IsEntry (unfold line in λ e. cc)
      (unfold line in λ e. cc)

regex_commands-Origin_example : All (Origin page) (regex_commands page)
regex_commands-Origin_example = regex_commands-Origin page

abbrev chapter : List Piece
chapter =
    record { prose = codes "First "; block = codes "# ./configure" }
    ∷ record { prose = codes ", then "; block = codes "## nothing" }
    ∷ record { prose = codes " and "; block = codes "make" }
    ∷ []

chapter-IsPlain : IsPlain chapter (codes ".")
unfolding contains
chapter-IsPlain = ground arith

regex_commands-render_example :
    regex_commands (render chapter (codes ".")) ≡ builds (map (λ p. p.block) chapter)
regex_commands-render_example = regex_commands-render chapter (codes ".") chapter-IsPlain

builds_runs : builds (map (λ p. p.block) chapter) ≡ codes "./configure" ∷ codes "make" ∷ []
unfolding builds clean_command is_build_command
builds_runs = refl

abbrev names : List Text
names = codes "Bash" ∷ codes "GCC" ∷ []

gmp-IsName : IsName (codes "GMP")
unfolding is_space lower contains rstrip_dots
gmp-IsName = ground arith

names-IsName : All IsName names
unfolding is_space lower contains rstrip_dots
names-IsName = ground arith

parse_deps-phrase_example :
    parse_deps (phrase (codes "GMP") names comma_and (codes "GMP"))
    ≡ codes "GMP" ∷ (names ++ codes "GMP" ∷ [])
parse_deps-phrase_example =
    parse_deps-phrase (codes "GMP") names comma_and (codes "GMP") gmp-IsName names-IsName gmp-IsName
