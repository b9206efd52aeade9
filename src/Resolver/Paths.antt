-- ===== src/Resolver/Paths.antt =====
-- What `topological_sort` promises, in terms of the graph alone: edges, paths and build orders.
use auto_lfs_builder.Prelude.{
  ◌≡◌, refl, sym, ap, subst, true, false, ◌⊎◌, inl, inr, List, [], ◌∷◌, ◌++◌, append_assoc,
  lookup_or, has_key, has_key-lookup, contains, contains-append, contains-snoc, nat_eq, list_eq, Eq,
  Bool-cases, arith,
}
use auto_lfs_builder.Text.{Text}
use auto_lfs_builder.Resolver.Sort.{Graph}

-- `v` is a listed dependency of `u` that the graph itself has.
pub record Edge (graph : Graph) (u v : Text) : Type 0 where
  pub listed : contains v (lookup_or u graph []) ≡ true
  pub present : has_key v graph ≡ true

-- One or more edges.
pub data Reaches (graph : Graph) (u : Text) : Text → Type 0 where
  one : {v : Text} → Edge graph u v → Reaches graph u v
  more : {w v : Text} → Reaches graph u w → Edge graph w v → Reaches graph u v

-- Every dependency stands in front of what depends on it.
abbrev pub DependenciesFirst : Graph → List Text → Type 0
DependenciesFirst graph order =
    (before after : List Text) (node dep : Text)
    → order ≡ before ++ node ∷ after
    → Edge graph node dep
    → contains dep before ≡ true

module _ (graph : Graph) where
  -- A node with an edge is a node of the graph.
  pub Edge-has_key : {u v : Text} → Edge graph u v → has_key u graph ≡ true
  unfolding lookup_or contains
  Edge-has_key {u} {v} edge = ground (arith, has_key-lookup u graph, edge.listed)

  pub Reaches-has_key : {u v : Text} → Reaches graph u v → has_key u graph ≡ true
  Reaches-has_key (one edge) = Edge-has_key edge
  Reaches-has_key (more path edge) = Reaches-has_key path

module _ {ℓ} {A : Type ℓ} ⦃e : Eq A⦄ where
  abbrev pub Distinct : List A → Type 0
  Distinct [] = Unit
  Distinct (x ∷ xs) = (contains x xs ≡ false) × Distinct xs

  pub Distinct-snoc :
      (xs : List A) (x : A) → contains x xs ≡ false → Distinct xs → Distinct (xs ++ x ∷ [])
  unfolding contains
  Distinct-snoc [] x h d = (refl, tt)
  Distinct-snoc (y ∷ xs) x h (fresh, d) = (
    ground (arith, contains-snoc y x xs, e.beq_iff x y, e.beq_iff y x),
    Distinct-snoc xs x (ground arith) d,
  )

  pub Distinct-split :
      (before after : List A) (x : A) → Distinct (before ++ x ∷ after) → contains x before ≡ false
  unfolding contains
  Distinct-split [] after x d = refl
  Distinct-split (y ∷ before) after x (fresh, d) = ground (
    arith,
    Distinct-split before after x d,
    contains-append y before (x ∷ after),
    e.beq_iff x y,
    e.beq_iff y x,
  )

  pub contains_split :
      (x : A) (xs : List A)
      → contains x xs ≡ true
      → (before : List A) × (after : List A) × (xs ≡ before ++ x ∷ after)
  unfolding contains
  contains_split x [] h = cc
  contains_split x (y ∷ xs) h = elim (Bool-cases (e.beq x y)) [
    | inl same ↦ ([], xs, ap (λ z. z ∷ xs) (sym ((e.beq_iff x y).0 same)))
    | inr other ↦
        let (before, after, p) = contains_split x xs (ground arith) in
        (y ∷ before, after, ap (λ zs. y ∷ zs) p)
  ]

  pub contains_middle : (before after : List A) (x : A) → contains x (before ++ x ∷ after) ≡ true
  unfolding contains
  contains_middle [] after x = ground (arith, e.beq_iff x x)
  contains_middle (y ∷ before) after x = ground (arith, contains_middle before after x)

  -- Where an element stands in a list that was extended at its end.
  pub snoc_split :
      (xs : List A) (x : A) (before after : List A) (y : A)
      → xs ++ x ∷ [] ≡ before ++ y ∷ after
      → ((before ≡ xs) × (y ≡ x)) ⊎ ((rest : List A) × (xs ≡ before ++ y ∷ rest))
  snoc_split [] x [] after y p = inl (refl, cc)
  snoc_split [] x (b ∷ []) after y p = cc
  snoc_split [] x (b ∷ c ∷ before) after y p = cc
  snoc_split (z ∷ xs) x [] after y p = inr (xs, cc)
  snoc_split (z ∷ xs) x (b ∷ before) after y p = elim (snoc_split xs x before after y (cc)) [
    | inl (q, r) ↦ inl (cc, r)
    | inr (rest, q) ↦ inr (rest, cc)
  ]

module _ (graph : Graph) (order : List Text) (first : DependenciesFirst graph order) where
  -- All that a path from a node reaches stands in front of the node.
  pub Reaches-before :
      {u v : Text} (before after : List Text)
      → order ≡ before ++ u ∷ after
      → Reaches graph u v
      → contains v before ≡ true
  Reaches-before {u} {v} before after p (one edge) = first before after u v p edge
  Reaches-before {u} {v} before after p (more {w} path edge) =
      let (front, back, q) = contains_split w before (Reaches-before before after p path) in
      let split : order ≡ front ++ w ∷ (back ++ u ∷ after) =
        cc (append_assoc front (w ∷ back) (u ∷ after)) in
      let found = first front (back ++ u ∷ after) w v split edge in
      ground (arith, contains-append v front (w ∷ back))

  pub not-Reaches_self :
      (node : Text) → Distinct order → contains node order ≡ true → ¬ Reaches graph node node
  not-Reaches_self node distinct placed path =
      let (before, after, p) = contains_split node order placed in
      cc (
        Reaches-before before after p path,
        Distinct-split before after node (subst (λ (l : List Text). Distinct l) p distinct),
      )
