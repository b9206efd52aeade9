-- ===== src/Resolver/Visit.antt =====
-- What one call of `visit` does: by induction on the bound of its recursion.
use auto_lfs_builder.Prelude.{
  ℕ, ◌<◌, ◌≡◌, refl, subst, true, ◌⊎◌, inl, inr, none, some, List, [], ◌∷◌, lookup, lookup_or,
  lookup-insert, has_key, contains, contains-snoc, nat_eq, list_eq, list_beq_iff, Bool-cases, keys,
  arith, if◌then◌else◌,
}
use auto_lfs_builder.Text.{Text}
use auto_lfs_builder.Resolver.Sort.{
  Graph, visiting, visited, State, set_mark, finish, Result, ok, circular, out_of_fuel, visit_deps,
  ◌>>=◌,
}
use auto_lfs_builder.Resolver.Paths.{Edge, Reaches, Distinct-snoc, snoc_split}
use auto_lfs_builder.Resolver.Invariant.{
  Inv, Extends, Extends-refl, Extends-trans, unmarked, unmarked-Extends,
}

module _ (graph : Graph) where
  abbrev pub deps_of : Text → List Text
  deps_of node = lookup_or node graph []

  pub set_mark-Inv :
      (node : Text) (s : State)
      → Inv graph s
      → has_key node graph ≡ true
      → lookup node s.marks ≡ none
      → Inv graph (set_mark node visiting s)
  unfolding set_mark
  set_mark-Inv node s inv key free = record {
    placed = λ x.
        ground (arith, inv.placed x, lookup-insert node x visiting s.marks, list_beq_iff node x);
    known = λ x h.
        ground (arith, inv.known x, lookup-insert node x visiting s.marks, list_beq_iff node x);
    first = inv.first;
    distinct = inv.distinct;
  }

  pub finish-Inv :
      (node : Text) (s : State)
      → Inv graph s
      → lookup node s.marks ≡ some visiting
      → ((dep : Text) → Edge graph node dep → lookup dep s.marks ≡ some visited)
      → Inv graph (finish node s)
  unfolding finish
  finish-Inv node s inv current done = record {
    placed = λ x. ground (
      arith,
      inv.placed x,
      lookup-insert node x visited s.marks,
      contains-snoc x node s.order,
      list_beq_iff node x,
      list_beq_iff x node,
    );
    known = λ x h. ground (
      arith,
      inv.known x,
      inv.known node,
      lookup-insert node x visited s.marks,
      list_beq_iff node x,
    );
    first = λ before after n dep p edge. elim (snoc_split s.order node before after n p) [
      | inl (q, r) ↦
          rw q ((inv.placed dep).0 (done dep (subst (λ (z : Text). Edge graph z dep) r edge)))
      | inr (rest, q) ↦ inv.first before rest n dep q edge
    ];
    distinct = Distinct-snoc s.order node (ground (arith, inv.placed node)) inv.distinct;
  }

  pub set_mark-finish-Extends :
      (node : Text) (s s' : State)
      → lookup node s.marks ≡ none
      → Extends (set_mark node visiting s) s'
      → Extends s (finish node s')
  unfolding finish
  set_mark-finish-Extends node s s' free e = record {
    open_kept = λ x. ground (
      arith,
      e.open_kept x,
      lookup-insert node x visiting s.marks,
      lookup-insert node x visited s'.marks,
      list_beq_iff node x,
    );
    closed_kept = λ x h. ground (
      arith,
      e.closed_kept x,
      lookup-insert node x visiting s.marks,
      lookup-insert node x visited s'.marks,
      list_beq_iff node x,
    );
  }

  -- The situation in which `visit` is called.
  pub record IsReady (fuel : ℕ) (node : Text) (s : State) : Type 0 where
    pub inv : Inv graph s
    pub key : has_key node graph ≡ true
    pub room : unmarked (keys graph) s.marks < fuel
    pub above : (x : Text) → lookup x s.marks ≡ some visiting → Reaches graph x node

  -- What a call that was to place some nodes leaves behind.
  abbrev pub Placed : State → (Text → Type 0) → Result State → Type 0
  Placed s wanted (ok s') =
      Inv graph s' × Extends s s' × ((x : Text) → wanted x → lookup x s'.marks ≡ some visited)
  Placed s wanted (circular n) = Reaches graph n n
  Placed s wanted out_of_fuel = ⊥

  abbrev pub Calls : ℕ → (Text → State → Result State) → Type 0
  Calls fuel call =
      (node : Text) (s : State) → IsReady fuel node s → Placed s (λ x. x ≡ node) (call node s)

  abbrev pub Wanted : List Text → Text → Type 0
  Wanted deps x = (contains x deps ≡ true) × (has_key x graph ≡ true)

  -- The rest of a loop after one call.
  pub Placed-bind :
      (P Q R : Text → Type 0) (s : State) (r : Result State) (f : State → Result State)
      → Placed s P r
      → ((x : Text) → R x → P x ⊎ Q x)
      → ((s' : State) → r ≡ ok s' → Inv graph s' → Extends s s' → Placed s' Q (f s'))
      → Placed s R (r >>= f)
  Placed-bind P Q R s (circular n) f h split rest = h
  Placed-bind P Q R s out_of_fuel f h split rest = h
  Placed-bind P Q R s (ok s') f (inv, ext, done) split rest = combine (f s') (rest s' refl inv ext)
    where
      combine : (r : Result State) → Placed s' Q r → Placed s R r
      combine (circular n) h = h
      combine out_of_fuel h = h
      combine (ok t) (inv', ext', done') = (
        inv',
        Extends-trans ext ext',
        λ x want. elim (split x want) [ inl p ↦ ext'.closed_kept x (done x p) | inr q ↦ done' x q ],
      )

  module _ (fuel : ℕ) (call : Text → State → Result State) (calls : Calls fuel call)
      (node : Text) where
    one_dep-Placed :
        (dep : Text) (s : State)
        → Inv graph s
        → unmarked (keys graph) s.marks < fuel
        → ((x : Text)
            → lookup x s.marks ≡ some visiting
            → Edge graph node dep
            → Reaches graph x dep)
        → contains dep (deps_of node) ≡ true
        → Placed s (Wanted (dep ∷ [])) (if has_key dep graph then call dep s else ok s)
    unfolding contains
    one_dep-Placed dep s inv room above listed = elim (Bool-cases (has_key dep graph)) [
      | inl key ↦ rw key (
          weaken (call dep s) (
            calls dep s (record {
              inv = inv;
              key = key;
              room = room;
              above = λ x h. above x h (record { listed = listed; present = key });
            })))
      | inr absent ↦ rw absent (inv, Extends-refl s, λ x want. ground (arith, list_beq_iff x dep))
    ]
      where
        weaken : (r : Result State) → Placed s (λ x. x ≡ dep) r → Placed s (Wanted (dep ∷ [])) r
        weaken (circular n) h = h
        weaken out_of_fuel h = h
        weaken (ok s') (i, e, done) = (i, e, λ x want. done x (ground (arith, list_beq_iff x dep)))

    pub visit_deps-Placed :
        (deps : List Text) (s : State)
        → Inv graph s
        → unmarked (keys graph) s.marks < fuel
        → ((x dep : Text)
            → lookup x s.marks ≡ some visiting
            → Edge graph node dep
            → Reaches graph x dep)
        → ((x : Text) → contains x deps ≡ true → contains x (deps_of node) ≡ true)
        → Placed s (Wanted deps) (visit_deps graph call deps s)
    unfolding visit_deps contains
    visit_deps-Placed [] s inv room above listed = (inv, Extends-refl s, λ x want. cc (want.0))
    visit_deps-Placed (dep ∷ deps) s inv room above listed =
        Placed-bind (Wanted (dep ∷ [])) (Wanted deps) (Wanted (dep ∷ deps)) s _
          (visit_deps graph call deps)
          (one_dep-Placed dep s inv room (λ x. above x dep)
            (listed dep (ground (arith, list_beq_iff dep dep))))
          (λ x want. ground arith)
          (λ s' _ inv' ext.
            visit_deps-Placed deps s' inv' (omega (arith, unmarked-Extends (keys graph) ext))
              (λ x d h. above x d ((ext.open_kept x).0 h)) (λ x h. listed x (ground arith)))
