-- ===== src/Resolver/Correct.antt =====
-- What `topological_sort` returns, for every graph.
use auto_lfs_builder.Prelude.{
  ℕ, zero, suc, ◌<◌, ◌≡◌, ◌≢◌, refl, true, inl, inr, Option, none, some, List, [], ◌∷◌, ◌++◌,
  lookup, lookup-insert, has_key, contains, nat_eq, list_eq, list_beq_iff, Bool-cases, length, keys,
  arith, ◌==◌,
}
use auto_lfs_builder.Text.{Text}
use auto_lfs_builder.Resolver.Sort.{
  Graph, Mark, visiting, visited, State, start, set_mark, finish, Result, ok, circular, out_of_fuel,
  visit_deps, visit, visit_all, ◌>>=◌,
}
use auto_lfs_builder.Resolver.Paths.{Edge, Reaches, one, more}
use auto_lfs_builder.Resolver.Invariant.{
  Inv, Extends-refl, unmarked, unmarked-Extends, unmarked-insert, unmarked-le-length,
}
use auto_lfs_builder.Resolver.Visit.{
  IsReady, Calls, Wanted, deps_of, Placed, Placed-bind, set_mark-Inv, finish-Inv,
  set_mark-finish-Extends, visit_deps-Placed,
}

module _ (graph : Graph) where
  -- The branch of `visit` for a node with no mark.
  fresh-Placed :
      (fuel : ℕ) (node : Text) (s : State)
      → Calls graph fuel (visit graph fuel)
      → IsReady graph (suc fuel) node s
      → lookup node s.marks ≡ none
      → Placed graph s
          (λ x. x ≡ node)
          (do
            s' ← visit_deps graph (visit graph fuel) (deps_of graph node) (set_mark node visiting s)
            ok (finish node s'))
  unfolding set_mark
  fresh-Placed fuel node s calls ready free =
      close (visit_deps graph (visit graph fuel) (deps_of graph node) marked) (
        visit_deps-Placed graph fuel (visit graph fuel) calls node (deps_of graph node) marked
          (set_mark-Inv graph node s ready.inv ready.key free)
          (omega
            (arith, unmarked-insert (keys graph) node visiting s.marks in_keys free, ready.room))
          from_open (λ x h. h))
    where
      marked : State
      marked = set_mark node visiting s

      in_keys : contains node (keys graph) ≡ true
      in_keys = unfold has_key in ready.key

      from_open :
          (x dep : Text)
          → lookup x marked.marks ≡ some visiting
          → Edge graph node dep
          → Reaches graph x dep
      from_open x dep h edge = elim (Bool-cases (x == node)) [
        | inl same ↦ rw ((list_beq_iff x node).0 same) (one edge)
        | inr other ↦
            more
              (ready.above x (
                ground (
                  arith,
                  lookup-insert node x visiting s.marks,
                  list_beq_iff node x,
                  list_beq_iff x node,
                )))
              edge
      ]

      close :
          (r : Result State)
          → Placed graph marked (Wanted graph (deps_of graph node)) r
          → Placed graph s (λ x. x ≡ node) (r >>= λ s'. ok (finish node s'))
      close (circular n) h = h
      close out_of_fuel h = h
      close (ok s') (inv, ext, done) =
          let current =
            (ext.open_kept node).1
              (ground (arith, lookup-insert node node visiting s.marks, list_beq_iff node node)) in
          (
            finish-Inv graph node s' inv current (λ dep e. done dep (e.listed, e.present)),
            set_mark-finish-Extends graph node s s' free ext,
            λ x same.
                unfold finish in
                ground (arith, lookup-insert node x visited s'.marks, list_beq_iff node x),
          )

  -- A call with room for its recursion places its node, or reports a node that reaches itself.
  visit-Placed : (fuel : ℕ) → Calls graph fuel (visit graph fuel)
  unfolding visit
  visit-Placed zero node s ready = absurd (omega (arith, ready.room))
  visit-Placed (suc fuel) node s ready = by_mark (visit-Placed fuel) (lookup node s.marks) refl
    where
      by_mark :
          Calls graph fuel (visit graph fuel)
          → (m : Option Mark) → lookup node s.marks ≡ m
          → Placed graph s (λ x. x ≡ node) (visit graph (suc fuel) node s)
      by_mark calls none p = rw (p, visit) (fresh-Placed fuel node s calls ready p)
      by_mark calls (some visiting) p = rw (p, visit) (ready.above node p)
      by_mark calls (some visited) p = rw (p, visit) (ready.inv, Extends-refl s, λ x e. rw e p)

  visit_all-Placed :
      (fuel : ℕ) (nodes : List Text) (s : State)
      → Inv graph s
      → unmarked (keys graph) s.marks < fuel
      → ((x : Text) → lookup x s.marks ≢ some visiting)
      → ((x : Text) → contains x nodes ≡ true → has_key x graph ≡ true)
      → Placed graph s (λ x. contains x nodes ≡ true) (visit_all graph fuel nodes s)
  unfolding visit_all contains
  visit_all-Placed fuel [] s inv room idle known = (inv, Extends-refl s, λ x h. cc)
  visit_all-Placed fuel (node ∷ nodes) s inv room idle known =
      Placed-bind graph (λ x. x ≡ node) (λ x. contains x nodes ≡ true) _ s (visit graph fuel node s)
        (visit_all graph fuel nodes)
        (visit-Placed fuel node s (record {
          inv = inv;
          key = known node (ground (arith, list_beq_iff node node));
          room = room;
          above = λ x h. absurd (idle x h);
        }))
        (λ x h. ground (arith, list_beq_iff x node))
        (λ s' _ inv' ext.
          visit_all-Placed fuel nodes s' inv' (omega (arith, unmarked-Extends (keys graph) ext))
            (λ x h. idle x ((ext.open_kept x).0 h)) (λ x h. known x (ground arith)))

  start-Inv : Inv graph start
  unfolding lookup contains
  start-Inv = record {
    placed = λ x. (λ h. cc, λ h. cc);
    known = λ x h. absurd (h refl);
    first = λ before after node dep p edge. no_split before node after p;
    distinct = tt;
  }
    where
      no_split :
          {A : Type 0} (before : List Text) (node : Text) (after : List Text)
          → [] ≡ before ++ node ∷ after
          → A
      no_split [] node after p = cc
      no_split (b ∷ before) node after p = cc

  pub all-Placed :
      Placed graph start
        (λ x. has_key x graph ≡ true)
        (visit_all graph (suc (length graph)) (keys graph) start)
  unfolding has_key lookup
  all-Placed =
      visit_all-Placed (suc (length graph)) (keys graph) start start-Inv
        (omega (arith, unmarked-le-length graph [])) (λ x h. cc) (λ x h. h)
