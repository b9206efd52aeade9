-- ===== src/Resolver/Invariant.antt =====
-- The state of `topological_sort`: its invariant, how a call extends it, and the measure that
-- bounds the depth of the recursion.
use auto_lfs_builder.Prelude.{
  ℕ, ◌+◌, ◌≤◌, ◌<◌, ◌≡◌, ◌≢◌, ◌↔◌, refl, true, Option, none, some, List, [], ◌∷◌, lookup,
  lookup-insert, has_key, contains, nat_eq, list_eq, list_beq_iff, length, keys, insert, arith,
  Dict,
}
use auto_lfs_builder.Text.{Text}
use auto_lfs_builder.Resolver.Sort.{Graph, Mark, visiting, visited, State}
use auto_lfs_builder.Resolver.Paths.{DependenciesFirst, Distinct}

pub record Inv (graph : Graph) (s : State) : Type 0 where
  pub placed : (x : Text) → (lookup x s.marks ≡ some visited) ↔ (contains x s.order ≡ true)
  pub known : (x : Text) → lookup x s.marks ≢ none → has_key x graph ≡ true
  pub first : DependenciesFirst graph s.order
  pub distinct : Distinct s.order

-- A call leaves the nodes in progress alone, and forgets no finished node.
pub record Extends (s s' : State) : Type 0 where
  pub open_kept :
      (x : Text) → (lookup x s'.marks ≡ some visiting) ↔ (lookup x s.marks ≡ some visiting)
  pub closed_kept : (x : Text) → lookup x s.marks ≡ some visited → lookup x s'.marks ≡ some visited

pub Extends-refl : (s : State) → Extends s s
Extends-refl s = record { open_kept = λ x. (λ h. h, λ h. h); closed_kept = λ x h. h }

pub Extends-trans : {s t u : State} → Extends s t → Extends t u → Extends s u
Extends-trans a b = record {
  open_kept = λ x.
      (λ h. (a.open_kept x).0 ((b.open_kept x).0 h), λ h. (b.open_kept x).1 ((a.open_kept x).1 h));
  closed_kept = λ x h. b.closed_kept x (a.closed_kept x h);
}

-- The nodes with no mark.
abbrev pub unmarked : List Text → Dict Text Mark → ℕ
unmarked [] marks = 0
unmarked (k ∷ ks) marks = (elim (lookup k marks) [ none ↦ 1 | some _ ↦ 0 ]) + unmarked ks marks

pub unmarked-le-length :
    (graph : Graph) (marks : Dict Text Mark) → unmarked (keys graph) marks ≤ length graph
unfolding keys
unmarked-le-length [] marks = omega arith
unmarked-le-length ((k, v) ∷ graph) marks = ground (arith, unmarked-le-length graph marks)

pub unmarked_anti :
    (ks : List Text) (marks marks' : Dict Text Mark)
    → ((x : Text) → lookup x marks' ≡ none → lookup x marks ≡ none)
    → unmarked ks marks' ≤ unmarked ks marks
unmarked_anti [] marks marks' h = omega arith
unmarked_anti (k ∷ ks) marks marks' h = ground (arith, h k, unmarked_anti ks marks marks' h)

pub none_of_Extends :
    {s s' : State} → Extends s s' → (x : Text) → lookup x s'.marks ≡ none → lookup x s.marks ≡ none
none_of_Extends {s} {s'} e x h = by_mark (lookup x s.marks) refl
  where
    by_mark : (m : Option Mark) → lookup x s.marks ≡ m → lookup x s.marks ≡ none
    by_mark none p = p
    by_mark (some visiting) p = cc ((e.open_kept x).1 p)
    by_mark (some visited) p = cc (e.closed_kept x p)

pub unmarked-Extends :
    (ks : List Text) {s s' : State} → Extends s s' → unmarked ks s'.marks ≤ unmarked ks s.marks
unmarked-Extends ks {s} {s'} e = unmarked_anti ks s.marks s'.marks (none_of_Extends e)

pub unmarked-insert :
    (ks : List Text) (node : Text) (mark : Mark) (marks : Dict Text Mark)
    → contains node ks ≡ true
    → lookup node marks ≡ none
    → unmarked ks (insert node mark marks) < unmarked ks marks
unfolding contains
unmarked-insert [] node mark marks h free = cc
unmarked-insert (k ∷ ks) node mark marks h free =
    let less =
      unmarked_anti ks marks (insert node mark marks)
        (λ x e. ground (arith, lookup-insert node x mark marks)) in
    ground (
      arith,
      list_beq_iff node k,
      lookup-insert node k mark marks,
      unmarked-insert ks node mark marks,
      less,
    )
