-- ===== src/Resolver/Agree.antt =====
-- The graph of `build_dependency_graph` against `resolve_dependencies` of lfs_parser.py.
use auto_lfs_builder.Prelude.{
  List, [], ◌∷◌, true, Option, none, some, nat_eq, list_eq, list_beq_iff, if◌then◌else◌, insert,
  lookup, lookup-insert, contains, ◌≡◌, refl, ◌∙◌, Option-cases, inl, inr, arith,
}
use auto_lfs_builder.Text.{Text, codes, split_on}
use auto_lfs_builder.Regex.{search_from, sub}
use auto_lfs_builder.Outside.{BeautifulSoup}
use auto_lfs_builder.LfsParser.Dependencies.{
  dep_names, parse_deps, find_bridge, soup_segment, regex_segment, depends_pattern, and_pattern,
}
use auto_lfs_builder.Resolver.Sort.{Graph}
use auto_lfs_builder.Resolver.Build.{
  empty_graph, listed_deps, deps_of_segment, segment_pattern, bridge_of, soup_step, regex_step,
}

-- The two files write the same comprehension, pattern and loop.
listed_deps-dep_names : (parts : List Text) → listed_deps parts ≡ dep_names parts
unfolding listed_deps dep_names
listed_deps-dep_names [] = refl
listed_deps-dep_names (d ∷ parts) = ground (arith, listed_deps-dep_names parts)

deps_of_segment-parse_deps : (text : Text) → deps_of_segment text ≡ parse_deps text
unfolding deps_of_segment parse_deps
deps_of_segment-parse_deps text =
    listed_deps-dep_names (split_on b',' (sub and_pattern (codes ", ") text))

segment_pattern-depends_pattern : (pkg : Text) → segment_pattern pkg ≡ depends_pattern pkg
unfolding segment_pattern depends_pattern
segment_pattern-depends_pattern pkg = refl

bridge_of-find_bridge :
    (bs : BeautifulSoup) (pkg : Text) (bridges : List bs.Tag)
    → bridge_of bs pkg bridges ≡ find_bridge bs pkg bridges
unfolding bridge_of find_bridge
bridge_of-find_bridge bs pkg [] = refl
bridge_of-find_bridge bs pkg (b ∷ bridges) = ground (arith, bridge_of-find_bridge bs pkg bridges)

-- Both loops, over what is found for a package.
unfoldable pub fill : (Text → Option (List Text)) → Graph → List Text → Graph
fill found graph [] = graph
fill found graph (pkg ∷ packages) =
    fill found (elim (found pkg) [ none ↦ graph | some deps ↦ insert pkg deps graph ]) packages

pub lookup-fill :
    (found : Text → Option (List Text)) (q : Text) (graph : Graph) (packages : List Text)
    → lookup q (fill found graph packages) ≡ (
        if contains q packages
        then elim (found q) [ none ↦ lookup q graph | some deps ↦ some deps ]
        else lookup q graph)
unfolding fill contains
lookup-fill found q graph [] = refl
lookup-fill found q graph (pkg ∷ packages) = elim (Option-cases (found pkg)) [
  | inl e ↦ ground (arith, e, lookup-fill found q graph packages, list_beq_iff q pkg)
  | inr (deps, e) ↦ ground (
    arith,
    e,
    lookup-fill found q (insert pkg deps graph) packages,
    lookup-insert pkg q deps graph,
    list_beq_iff q pkg,
    list_beq_iff pkg q,
  )
]

pub lookup-empty_graph :
    (q : Text) (graph : Graph) (packages : List Text)
    → lookup q (empty_graph graph packages)
      ≡ (if contains q packages then some [] else lookup q graph)
unfolding empty_graph contains
lookup-empty_graph q graph [] = refl
lookup-empty_graph q graph (pkg ∷ packages) = ground (
  arith,
  lookup-empty_graph q (insert pkg [] graph) packages,
  lookup-insert pkg q [] graph,
  list_beq_iff q pkg,
  list_beq_iff pkg q,
)

-- What the text says of a package: nothing, or a list.
unfoldable pub found_in : Option BeautifulSoup → Text → Text → Option (List Text)
found_in (some bs) text pkg = elim (soup_segment bs pkg text) [
  | none ↦ none
  | some segment ↦ some (parse_deps segment)
]
found_in none text pkg = elim (regex_segment pkg text) [
  | none ↦ none
  | some segment ↦ some (parse_deps segment)
]

module _ (bs : BeautifulSoup) (graph : Graph) (pkg : Text) where
  open bs use {Tag, find_next_depends, find_seg, get_text}

  -- `soup_step` over the parser of a segment and the heading that was found.
  abbrev pub step_by : (Text → List Text) → Option Tag → Graph
  step_by parse heading = elim heading [
    | none ↦ graph
    | some bridge ↦ elim (find_next_depends bridge) [
      | none ↦ graph
      | some seglist ↦ elim (find_seg seglist) [
        | none ↦ graph
        | some seg ↦ insert pkg (parse (get_text seg)) graph
      ]
    ]
  ]

  pub soup_step-fill :
      (text : Text)
      → soup_step bs (bs.find_bridgeheads (bs.xml_parser text)) graph pkg
        ≡ (elim (found_in (some bs) text pkg) [ none ↦ graph | some deps ↦ insert pkg deps graph ])
  unfolding soup_step found_in soup_segment
  soup_step-fill text =
      let bridges = bs.find_bridgeheads (bs.xml_parser text) in
      let same : step_by deps_of_segment (bridge_of bs pkg bridges)
          ≡ step_by parse_deps (find_bridge bs pkg bridges) =
        λ i.
          step_by (λ s. deps_of_segment-parse_deps s i) (bridge_of-find_bridge bs pkg bridges i) in
      same ∙ ground arith

module _ (graph : Graph) (pkg : Text) where
  pub regex_step-fill :
      (text : Text)
      → regex_step text graph pkg
        ≡ (elim (found_in none text pkg) [ none ↦ graph | some deps ↦ insert pkg deps graph ])
  unfolding regex_step found_in regex_segment
  regex_step-fill text =
      rw (segment_pattern-depends_pattern pkg, regex_step)
        (elim (Option-cases (search_from (depends_pattern pkg) true text)) [
          | inl e ↦ rw e
          | inr (m, e) ↦ rw (e, deps_of_segment-parse_deps m.group)
        ])
