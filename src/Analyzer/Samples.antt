-- ===== src/Analyzer/Samples.antt =====
-- A small tree of files, and the theorems about the analyzer at it.
use auto_lfs_builder.Prelude.{
  ◌≡◌, refl, true, none, some, [], ◌∷◌, contains, lookup_or, nat_eq, list_eq, list_beq, lookup,
  insert,
}
use auto_lfs_builder.Text.{Text, codes, lower}
use auto_lfs_builder.Regex.{search_from}
use auto_lfs_builder.Outside.{Files}
use auto_lfs_builder.LfsParser.Commands.{extract_build_commands}
use auto_lfs_builder.LfsParser.Dependencies.{
  resolve_dependencies, deps_of_text, regex_segment, depends_pattern, parse_deps,
}
use auto_lfs_builder.Resolver.Build.{
  build_dependency_graph, empty_graph, fill_graph, regex_loop, regex_step, segment_pattern,
  deps_of_segment,
}
use auto_lfs_builder.Analyzer.{Walk, Analysis, find_package_file, analyze_package, report}
use auto_lfs_builder.Analyzer.Laws.{FirstMatch, visited_files, find_package_file-FirstMatch}

program : Unit {0}
unfolding lookup lookup_or insert contains list_beq build_dependency_graph empty_graph fill_graph
    regex_loop regex_step segment_pattern deps_of_segment search_from resolve_dependencies
    deps_of_text regex_segment depends_pattern parse_deps extract_build_commands find_package_file
    analyze_package report
program = tt

abbrev walk : Walk
walk =
    (codes "docs", codes "README" ∷ [])
    ∷ (codes "docs/a", codes "bash.txt" ∷ codes "Bash-5.xml" ∷ [])
    ∷ (codes "docs/b", codes "bash.xml" ∷ [])
    ∷ []

abbrev book : Text
book =
    codes
      "<bridgehead>Bash</bridgehead><segmentedlist id='bash-depends'><seg>Glibc and Ncurses</seg><userinput>make</userinput>"

abbrev files : Files
files = record { exists = λ path. true; read_text = λ path. some book }

abbrev analysis : Analysis
analysis = record {
  name = codes "bash";
  file = codes "docs/a/Bash-5.xml";
  commands = codes "make" ∷ [];
  dependencies = codes "Glibc" ∷ codes "Ncurses" ∷ [];
}

analyze-bash : analyze_package none files walk (codes "x") (codes "bash") ≡ some (some analysis)
unfolding program
analyze-bash = refl

report-bash :
    report (some analysis)
    ≡ codes "Package: bash"
      ∷ codes "File: docs/a/Bash-5.xml"
      ∷ codes "Dependencies:"
      ∷ codes "  - Glibc"
      ∷ codes "  - Ncurses"
      ∷ codes "Commands:"
      ∷ codes "make"
      ∷ []
unfolding program
report-bash = refl

find_package_file-FirstMatch_example :
    FirstMatch (lower (codes "bash")) (visited_files walk) (find_package_file (codes "bash") walk)
find_package_file-FirstMatch_example = find_package_file-FirstMatch (codes "bash") walk
