-- ===== src/Resolver/Samples.antt =====
-- Small graphs and files, what the resolver does on them, and the theorems at these inputs.
use auto_lfs_builder.Prelude.{
  ◌≡◌, ◌↔◌, ◌⊎◌, refl, true, none, some, List, [], ◌∷◌, insert, lookup, lookup_or, has_key,
  contains, keys, list_beq, nat_eq, list_eq,
}
use auto_lfs_builder.Text.{Text, codes}
use auto_lfs_builder.Regex.{search_from}
use auto_lfs_builder.Outside.{Files}
use auto_lfs_builder.LfsParser.Dependencies.{
  resolve_dependencies, deps_of_text, regex_segment, depends_pattern, parse_deps,
}
use auto_lfs_builder.Resolver.Sort.{Graph, ok, circular, topological_sort}
use auto_lfs_builder.Resolver.Paths.{Reaches}
use auto_lfs_builder.Resolver.Order.{
  IsBuildOrder, topological_sort_total, topological_sort-IsBuildOrder, topological_sort-circular,
  topological_sort-acyclic,
}
use auto_lfs_builder.Resolver.Build.{
  build_dependency_graph, empty_graph, fill_graph, regex_loop, regex_step, segment_pattern,
  deps_of_segment, cli,
}
use auto_lfs_builder.Resolver.Contract.{build_dependency_graph-resolve_dependencies, cli_first}

program : Unit {0}
unfolding topological_sort lookup lookup_or has_key insert keys contains list_beq cli
    build_dependency_graph empty_graph fill_graph regex_loop regex_step segment_pattern
    deps_of_segment search_from resolve_dependencies deps_of_text regex_segment depends_pattern
    parse_deps
program = tt

-- A diamond, given from its top.
abbrev diamond : Graph
diamond =
    (codes "gcc", codes "mpfr" ∷ codes "gmp" ∷ [])
    ∷ (codes "mpfr", codes "gmp" ∷ codes "absent" ∷ [])
    ∷ (codes "gmp", [])
    ∷ []

abbrev diamond_order : List Text
diamond_order = codes "gmp" ∷ codes "mpfr" ∷ codes "gcc" ∷ []

topological_sort-diamond : topological_sort diamond ≡ ok diamond_order
unfolding program
topological_sort-diamond = refl

abbrev loop : Graph
loop =
    (codes "top", codes "a" ∷ []) ∷ (codes "a", codes "b" ∷ []) ∷ (codes "b", codes "a" ∷ []) ∷ []

topological_sort-loop : topological_sort loop ≡ circular (codes "a")
unfolding program
topological_sort-loop = refl

topological_sort_total_example :
    ((order : List Text) × (topological_sort loop ≡ ok order))
    ⊎ ((node : Text) × (topological_sort loop ≡ circular node))
topological_sort_total_example = topological_sort_total loop

topological_sort-IsBuildOrder_example : IsBuildOrder diamond diamond_order
topological_sort-IsBuildOrder_example =
    topological_sort-IsBuildOrder diamond diamond_order topological_sort-diamond

topological_sort-circular_example : Reaches loop (codes "a") (codes "a")
topological_sort-circular_example = topological_sort-circular loop (codes "a") topological_sort-loop

topological_sort-acyclic_example :
    ((order : List Text) × (topological_sort diamond ≡ ok order))
    ↔ ((node : Text) → ¬ Reaches diamond node node)
topological_sort-acyclic_example = topological_sort-acyclic diamond

-- A file with the lists of two packages.
abbrev book : Text
book =
    codes
      "<bridgehead>acl</bridgehead><segmentedlist id='acl-depends'><seg>attr, none and bash.</seg><bridgehead>bash</bridgehead><segmentedlist id='bash-depends'><seg>None</seg>"

abbrev files : Files
files = record { exists = λ path. true; read_text = λ path. some book }

abbrev packages : List Text
packages = codes "acl" ∷ codes "bash" ∷ []

abbrev book_graph : Graph
book_graph = (codes "acl", codes "attr" ∷ codes "bash" ∷ []) ∷ (codes "bash", []) ∷ []

build-book : build_dependency_graph none files packages (codes "x") ≡ some book_graph
unfolding program
build-book = refl

cli-book : cli none files (codes "x") packages ≡ some (ok (codes "bash" ∷ codes "acl" ∷ []))
unfolding program
cli-book = refl

acl_given : contains (codes "acl") packages ≡ true
unfolding program
acl_given = refl

build_dependency_graph-resolve_dependencies_example :
    resolve_dependencies none files (codes "acl") (codes "x")
    ≡ some (lookup_or (codes "acl") book_graph [])
build_dependency_graph-resolve_dependencies_example =
    build_dependency_graph-resolve_dependencies none files packages (codes "x") book_graph
      (codes "acl") build-book acl_given

acl_deps :
    (resolve_dependencies none files (codes "acl") (codes "x")
      ≡ some (codes "attr" ∷ codes "bash" ∷ []))
    × (contains (codes "bash") (codes "attr" ∷ codes "bash" ∷ []) ≡ true)
    × (contains (codes "bash") packages ≡ true)
unfolding program
acl_deps = (refl, refl, refl)

cli_first_example : contains (codes "bash") (codes "bash" ∷ []) ≡ true
cli_first_example =
    cli_first none files (codes "x") packages (codes "bash" ∷ codes "acl" ∷ []) (codes "bash" ∷ [])
      [] (codes "attr" ∷ codes "bash" ∷ []) (codes "acl") (codes "bash") cli-book refl acl_deps.0
      acl_deps.1 acl_deps.2

-- The heading is found in any case, but the name that it lists is not the node `bash`.
abbrev mixed_case : Text
mixed_case = codes "<bridgehead>Acl</bridgehead><segmentedlist id='acl-depends'><seg>Bash</seg>"

cli-mixed_case :
    cli none
      (record { exists = λ path. true; read_text = λ path. some mixed_case })
      (codes "x")
      packages
    ≡ some (ok packages)
unfolding program
cli-mixed_case = refl
