-- ===== src/Resolver/Contract.antt =====
-- The graph that `build_dependency_graph` hands to the sort, and the whole command.
use auto_lfs_builder.Prelude.{
  List, [], ◌∷◌, ◌++◌, true, Option, none, some, nat_eq, list_eq, if◌then◌else◌, lookup, lookup-nil,
  lookup_or, contains, ◌≡◌, ◌∙◌, refl, Bool-cases, Option-cases, inl, inr, arith, has_key,
  has_key-lookup, ◌↔◌,
}
use auto_lfs_builder.Text.{Text}
use auto_lfs_builder.Outside.{FilePath, Files, BeautifulSoup}
use auto_lfs_builder.LfsParser.Dependencies.{deps_of_text, resolve_dependencies}
use auto_lfs_builder.Resolver.Sort.{Graph, Result, ok, topological_sort}
use auto_lfs_builder.Resolver.Paths.{Edge, Distinct, contains_middle}
use auto_lfs_builder.Resolver.Order.{topological_sort-IsBuildOrder}
use auto_lfs_builder.Resolver.Build.{
  empty_graph, soup_loop, soup_step, regex_step, regex_loop, fill_graph, build_dependency_graph,
  cli,
}
use auto_lfs_builder.Resolver.Agree.{
  fill, lookup-fill, lookup-empty_graph, found_in, soup_step-fill, regex_step-fill,
}

soup_loop-fill :
    (bs : BeautifulSoup) (text : Text) (graph : Graph) (packages : List Text)
    → soup_loop bs (bs.find_bridgeheads (bs.xml_parser text)) graph packages
      ≡ fill (found_in (some bs) text) graph packages
unfolding soup_loop fill
soup_loop-fill bs text graph [] = refl
soup_loop-fill bs text graph (pkg ∷ packages) = rw (← soup_step-fill bs graph pkg text) (
    soup_loop-fill bs text (soup_step bs (bs.find_bridgeheads (bs.xml_parser text)) graph pkg)
      packages)

regex_loop-fill :
    (text : Text) (graph : Graph) (packages : List Text)
    → regex_loop text graph packages ≡ fill (found_in none text) graph packages
unfolding regex_loop fill
regex_loop-fill text graph [] = refl
regex_loop-fill text graph (pkg ∷ packages) =
    rw (← regex_step-fill graph pkg text)
      (regex_loop-fill text (regex_step text graph pkg) packages)

fill_graph-fill :
    (bs : Option BeautifulSoup) (text : Text) (graph : Graph) (packages : List Text)
    → fill_graph bs text graph packages ≡ fill (found_in bs text) graph packages
unfolding fill_graph
fill_graph-fill (some bs) text graph packages = soup_loop-fill bs text graph packages
fill_graph-fill none text graph packages = regex_loop-fill text graph packages

-- `resolve_dependencies` reads a text that says nothing of a package as an empty list.
deps_of_text-found_in :
    (bs : Option BeautifulSoup) (pkg text : Text)
    → deps_of_text bs pkg text ≡ (elim (found_in bs text pkg) [ none ↦ [] | some deps ↦ deps ])
unfolding deps_of_text found_in
deps_of_text-found_in (some bs) pkg text = ground arith
deps_of_text-found_in none pkg text = ground arith

-- The two shapes that the graph can have: with no file, and with its text.
lookup-build :
    (bs : Option BeautifulSoup) (files : Files) (packages : List Text) (file : FilePath)
    (graph : Graph) (pkg : Text)
    → build_dependency_graph bs files packages file ≡ some graph
    → (deps : List Text) × (resolve_dependencies bs files pkg file ≡ some deps)
      × (lookup pkg graph ≡ (if contains pkg packages then some deps else none))
unfolding build_dependency_graph resolve_dependencies
lookup-build bs files packages file graph pkg h = elim (Bool-cases (files.exists file)) [
  | inr absent ↦ (
    [],
    rw absent,
    ground (arith, lookup-empty_graph pkg [] packages, absent, lookup-nil {V = List Text} pkg),
  )
  | inl present ↦ elim (Option-cases (files.read_text file)) [
    | inl e ↦ ground (arith, e, present)
    | inr (text, e) ↦ (
      deps_of_text bs pkg text,
      rw (present, e),
      ground (
        arith,
        e,
        present,
        lookup-nil {V = List Text} pkg,
        fill_graph-fill bs text (empty_graph [] packages) packages,
        lookup-fill (found_in bs text) pkg (empty_graph [] packages) packages,
        lookup-empty_graph pkg [] packages,
        deps_of_text-found_in bs pkg text,
      ),
    )
  ]
]

-- The graph has exactly the given packages as its nodes.
pub build_dependency_graph-keys :
    (bs : Option BeautifulSoup) (files : Files) (packages : List Text) (file : FilePath)
    (graph : Graph) (pkg : Text)
    → build_dependency_graph bs files packages file ≡ some graph
    → has_key pkg graph ≡ contains pkg packages
build_dependency_graph-keys bs files packages file graph pkg h =
    let (deps, resolved, looked) = lookup-build bs files packages file graph pkg h in
    ground (arith, looked, has_key-lookup pkg graph)

-- For each of the given packages the graph lists what `resolve_dependencies` of lfs_parser.py
-- returns for it, with BeautifulSoup and without.
pub build_dependency_graph-resolve_dependencies :
    (bs : Option BeautifulSoup) (files : Files) (packages : List Text) (file : FilePath)
    (graph : Graph) (pkg : Text)
    → build_dependency_graph bs files packages file ≡ some graph
    → contains pkg packages ≡ true
    → resolve_dependencies bs files pkg file ≡ some (lookup_or pkg graph [])
unfolding lookup_or
build_dependency_graph-resolve_dependencies bs files packages file graph pkg h given =
    let (deps, resolved, looked) = lookup-build bs files packages file graph pkg h in
    ground (arith, looked, resolved)

-- The graph cannot be built exactly when `resolve_dependencies` raises: the file is there and
-- cannot be read.
pub build_dependency_graph_raises :
    (bs : Option BeautifulSoup) (files : Files) (packages : List Text) (file : FilePath)
    (pkg : Text)
    → (build_dependency_graph bs files packages file ≡ none)
      ↔ (resolve_dependencies bs files pkg file ≡ none)
unfolding build_dependency_graph resolve_dependencies
build_dependency_graph_raises bs files packages file pkg = ground arith

-- An edge of a graph whose lists are those of `resolve_dependencies`.
Edge-build :
    (bs : Option BeautifulSoup) (files : Files) (packages : List Text) (file : FilePath)
    (graph : Graph)
    → build_dependency_graph bs files packages file ≡ some graph
    → (pkg dep : Text) (deps : List Text) → contains pkg packages ≡ true
    → contains dep packages ≡ true
    → resolve_dependencies bs files pkg file ≡ some deps
    → contains dep deps ≡ true
    → Edge graph pkg dep
Edge-build bs files packages file graph h pkg dep deps given also resolved listed = record {
  listed =
      ground (
        arith,
        build_dependency_graph-resolve_dependencies bs files packages file graph pkg h given,
      );
  present = build_dependency_graph-keys bs files packages file graph dep h ∙ also;
}

cli-eq-some :
    (bs : Option BeautifulSoup) (files : Files) (file : FilePath) (packages : List Text)
    {r : Result (List Text)}
    → cli bs files file packages ≡ some r
    → (graph : Graph) × (build_dependency_graph bs files packages file ≡ some graph)
      × (topological_sort graph ≡ r)
unfolding cli
cli-eq-some bs files file packages h =
    elim (Option-cases (build_dependency_graph bs files packages file)) [
      | inl e ↦ ground (arith, e)
      | inr (graph, e) ↦ (graph, e, ground (arith, e))
    ]

-- When the command prints, it prints every package that it was given exactly once and nothing
-- else.
pub cli_complete :
    (bs : Option BeautifulSoup) (files : Files) (file : FilePath) (packages order : List Text)
    → cli bs files file packages ≡ some (ok order)
    → Distinct order × ((pkg : Text) → contains pkg order ≡ contains pkg packages)
cli_complete bs files file packages order h =
    let (graph, built, sorted) = cli-eq-some bs files file packages h in
    let good = topological_sort-IsBuildOrder graph order sorted in
    (
      good.distinct,
      λ pkg. ground (
        arith,
        good.complete pkg,
        build_dependency_graph-keys bs files packages file graph pkg built,
      ),
    )

-- When the command prints, a given package that `resolve_dependencies` lists for another stands in
-- front of it.
pub cli_first :
    (bs : Option BeautifulSoup) (files : Files) (file : FilePath) (packages order : List Text)
    (before after deps : List Text) (pkg dep : Text)
    → cli bs files file packages ≡ some (ok order)
    → order ≡ before ++ pkg ∷ after
    → resolve_dependencies bs files pkg file ≡ some deps
    → contains dep deps ≡ true
    → contains dep packages ≡ true
    → contains dep before ≡ true
cli_first bs files file packages order before after deps pkg dep h split resolved listed also =
    let (graph, built, sorted) = cli-eq-some bs files file packages h in
    let good = topological_sort-IsBuildOrder graph order sorted in
    good.first before after pkg dep split (
      Edge-build bs files packages file graph built pkg dep deps
        (ground (
          arith,
          good.complete pkg,
          build_dependency_graph-keys bs files packages file graph pkg built,
          rw (← split) at (contains_middle before after pkg),
        ))
        also resolved listed)
