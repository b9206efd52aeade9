-- ===== src/Resolver/Order.antt =====
-- The contract of `topological_sort`.
use auto_lfs_builder.Prelude.{
  ◌≡◌, subst, ◌↔◌, refl, true, ◌⊎◌, inl, inr, List, has_key, contains, nat_eq, list_eq, arith, keys,
  length, suc,
}
use auto_lfs_builder.Text.{Text}
use auto_lfs_builder.Resolver.Sort.{
  Graph, State, start, Result, ok, circular, out_of_fuel, visit_all, topological_sort, ◌>>=◌,
}
use auto_lfs_builder.Resolver.Paths.{
  Reaches, Reaches-has_key, DependenciesFirst, Distinct, not-Reaches_self,
}
use auto_lfs_builder.Resolver.Visit.{Placed}
use auto_lfs_builder.Resolver.Correct.{all-Placed}

-- A build order: every node of the graph once, behind its dependencies.
pub record IsBuildOrder (graph : Graph) (order : List Text) : Type 0 where
  pub first : DependenciesFirst graph order
  pub distinct : Distinct order
  pub complete : (x : Text) → (contains x order ≡ true) ↔ (has_key x graph ≡ true)

module _ (graph : Graph) where
  abbrev Sorted : Result (List Text) → Type 0
  Sorted (ok order) = IsBuildOrder graph order
  Sorted (circular n) = Reaches graph n n
  Sorted out_of_fuel = ⊥

  Placed-Sorted :
      (r : Result State)
      → Placed graph start (λ x. has_key x graph ≡ true) r
      → Sorted (r >>= λ s. ok s.order)
  Placed-Sorted (circular n) h = h
  Placed-Sorted out_of_fuel h = h
  Placed-Sorted (ok s) (inv, ext, done) = record {
    first = inv.first;
    distinct = inv.distinct;
    complete =
        λ x. (λ h. ground (arith, inv.known x, inv.placed x), λ h. (inv.placed x).0 (done x h));
  }

  topological_sort-Sorted : Sorted (topological_sort graph)
  topological_sort-Sorted =
      unfold topological_sort in
      Placed-Sorted (visit_all graph (suc (length graph)) (keys graph) start) (all-Placed graph)

-- For every graph the sort ends, with an order or with the error that names a node.
pub topological_sort_total :
    (graph : Graph)
    → ((order : List Text) × (topological_sort graph ≡ ok order))
      ⊎ ((node : Text) × (topological_sort graph ≡ circular node))
topological_sort_total graph =
    by_result (topological_sort graph) refl (topological_sort-Sorted graph)
  where
    by_result :
        (r : Result (List Text))
        → topological_sort graph ≡ r
        → Sorted graph r
        → ((order : List Text) × (topological_sort graph ≡ ok order))
          ⊎ ((node : Text) × (topological_sort graph ≡ circular node))
    by_result (ok order) e h = inl (order, e)
    by_result (circular node) e h = inr (node, e)
    by_result out_of_fuel e h = absurd h

-- A returned order holds every node of the graph exactly once and nothing else, and each of them
-- behind all of its listed dependencies that are nodes of the graph.
pub topological_sort-IsBuildOrder :
    (graph : Graph) (order : List Text)
    → topological_sort graph ≡ ok order
    → IsBuildOrder graph order
topological_sort-IsBuildOrder graph order e = subst (Sorted graph) e (topological_sort-Sorted graph)

-- The error names a node that depends on itself, over one or more edges of the graph.
pub topological_sort-circular :
    (graph : Graph) (node : Text) → topological_sort graph ≡ circular node → Reaches graph node node
topological_sort-circular graph node e = subst (Sorted graph) e (topological_sort-Sorted graph)

-- The sort returns an order exactly for the graphs in which no node depends on itself, over one
-- or more edges.
pub topological_sort-acyclic :
    (graph : Graph)
    → ((order : List Text) × (topological_sort graph ≡ ok order))
      ↔ ((node : Text) → ¬ Reaches graph node node)
topological_sort-acyclic graph = (
  λ (order, e) node path. no_cycle order e node path,
  λ acyclic. elim (topological_sort_total graph) [
    | inl sorted ↦ sorted
    | inr (node, e) ↦ absurd (acyclic node (topological_sort-circular graph node e))
  ],
)
  where
    no_cycle :
        (order : List Text)
        → topological_sort graph ≡ ok order
        → (node : Text) → ¬ Reaches graph node node
    no_cycle order e node path =
        let built = topological_sort-IsBuildOrder graph order e in
        not-Reaches_self graph order built.first node built.distinct
          ((built.complete node).1 (Reaches-has_key graph path)) path
