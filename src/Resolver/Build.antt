-- ===== src/Resolver/Build.antt =====
-- `build_dependency_graph` and `_cli` of src/parsers/dependency_resolver.py. The file repeats the
-- parsing of lfs_parser.py in its own words, and so does this module.
use auto_lfs_builder.Prelude.{
  List, [], ◌∷◌, ◌++◌, map, true, not, ◌&&◌, ◌||◌, Option, none, some, nat_eq, list_eq, list_beq,
  ◌==◌, if◌then◌else◌, insert,
}
use auto_lfs_builder.Text.{Text, codes, is_nil, is_space, strip, lower, rstrip_dots, split_on}
use auto_lfs_builder.Regex.{
  Pattern, one, many, lazily, capture, any_char, none_of, same_letter, some_of, letters, sub,
  search_from,
}
use auto_lfs_builder.Outside.{FilePath, Files, BeautifulSoup}
use auto_lfs_builder.Resolver.Sort.{Graph, Result, topological_sort}

-- `{pkg: [] for pkg in packages}`
unfoldable pub empty_graph : Graph → List Text → Graph
unfolding insert
empty_graph graph [] = graph
empty_graph graph (pkg ∷ packages) = empty_graph (insert pkg [] graph) packages

-- The comprehension over the parts of a segment.
unfoldable pub listed_deps : List Text → List Text
unfolding strip lower rstrip_dots list_beq
listed_deps [] = []
listed_deps (d ∷ ds) =
    let rest = listed_deps ds in
    if not (is_nil (strip d)) && not (lower (strip d) == codes "none")
    then rstrip_dots (strip d) ∷ rest
    else rest

unfoldable pub deps_of_segment : Text → List Text
unfolding sub is_space split_on listed_deps
deps_of_segment deps_text = listed_deps (
    split_on b',' (
      sub
        (some_of is_space
          ++ (one (λ c. c == b'a')
              ∷ one (λ c. c == b'n')
              ∷ one (λ c. c == b'd')
              ∷ some_of is_space))
        (codes ", ") deps_text))

-- The pattern of `re.search`, with the package name escaped at its first place and not at its second.
unfoldable pub segment_pattern : Text → Pattern
unfolding letters is_space lower
segment_pattern pkg =
    letters (codes "<bridgehead")
    ++ (many (none_of b'>')
        ∷ one (λ c. c == b'>')
        ∷ many is_space
        ∷ (letters pkg
            ++ (many is_space
                ∷ (letters (codes "</bridgehead>")
                    ++ (lazily any_char
                        ∷ (letters (codes "<segmentedlist")
                            ++ (many (none_of b'>')
                                ∷ (letters (codes "id=")
                                    ++ (one (λ c. c == 0x22 || c == 0x27)
                                        ∷ (map
                                              (λ x.
                                                one (
                                                  if x == b'.' then (λ c. true) else same_letter x))
                                              (lower pkg)
                                            ++ (letters (codes "-depends")
                                                ++ (one (λ c. c == 0x22 || c == 0x27)
                                                    ∷ many (none_of b'>')
                                                    ∷ one (λ c. c == b'>')
                                                    ∷ lazily any_char
                                                    ∷ (letters (codes "<seg>")
                                                        ++ (capture any_char
                                                            ∷ letters (codes "</seg>")))))))))))))))

module _ (bs : BeautifulSoup) where
  open bs use {Tag, find_bridgeheads, find_next_depends, find_seg, get_text, xml_parser}

  -- The inner loop: `bridge` stays `None` or becomes the first heading of that name.
  unfoldable pub bridge_of : Text → List Tag → Option Tag
  unfolding strip lower list_beq
  bridge_of pkg [] = none
  bridge_of pkg (b ∷ bridges) =
      let rest = bridge_of pkg bridges in
      if lower (strip (get_text b)) == lower pkg then some b else rest

  -- The body of the loop over the packages, on the parsed document. Each `continue` leaves the
  -- graph as it is.
  unfoldable pub soup_step : List Tag → Graph → Text → Graph
  soup_step bridges graph pkg = elim (bridge_of pkg bridges) [
    | none ↦ graph
    | some bridge ↦ elim (find_next_depends bridge) [
      | none ↦ graph
      | some seglist ↦ elim (find_seg seglist) [
        | none ↦ graph
        | some seg ↦ insert pkg (deps_of_segment (get_text seg)) graph
      ]
    ]
  ]

  unfoldable pub soup_loop : List Tag → Graph → List Text → Graph
  soup_loop bridges graph [] = graph
  soup_loop bridges graph (pkg ∷ packages) =
      soup_loop bridges (soup_step bridges graph pkg) packages

-- The body of the loop without BeautifulSoup.
unfoldable pub regex_step : Text → Graph → Text → Graph
regex_step text graph pkg = elim (search_from (segment_pattern pkg) true text) [
  | none ↦ graph
  | some m ↦ insert pkg (deps_of_segment m.group) graph
]

unfoldable pub regex_loop : Text → Graph → List Text → Graph
regex_loop text graph [] = graph
regex_loop text graph (pkg ∷ packages) = regex_loop text (regex_step text graph pkg) packages

unfoldable pub fill_graph : Option BeautifulSoup → Text → Graph → List Text → Graph
fill_graph (some bs) text graph packages =
    soup_loop bs (bs.find_bridgeheads (bs.xml_parser text)) graph packages
fill_graph none text graph packages = regex_loop text graph packages

-- `none` is the exception of `read_text`.
unfoldable pub build_dependency_graph :
    Option BeautifulSoup → Files → List Text → FilePath → Option Graph
build_dependency_graph bs files packages dependency_file =
    let graph = empty_graph [] packages in
    if not (files.exists dependency_file)
    then some graph
    else elim (files.read_text dependency_file) [
      | none ↦ none
      | some text ↦ some (fill_graph bs text graph packages)
    ]

-- What `_cli` prints, a line for each package, or the exception that ends it.
unfoldable pub cli :
    Option BeautifulSoup → Files → FilePath → List Text → Option (Result (List Text))
cli bs files dependency_file packages =
    elim (build_dependency_graph bs files packages dependency_file) [
      | none ↦ none
      | some graph ↦ some (topological_sort graph)
    ]
