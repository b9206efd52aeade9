-- ===== src/Resolver/Sort.antt =====
-- `topological_sort` of src/parsers/dependency_resolver.py. The proofs are in the children.
use auto_lfs_builder.Prelude.{
  ℕ, zero, suc, none, some, List, [], ◌∷◌, ◌++◌, Dict, keys, lookup, lookup_or, has_key, insert,
  length, if◌then◌else◌, nat_eq, list_eq,
}
use auto_lfs_builder.Text.{Text}

abbrev pub Graph : Type 0
Graph = Dict Text (List Text)

-- The two strings that the source stores in `visited`.
pub data Mark : Type 0 where
  visiting visited : Mark

-- The variables that `visit` closes over and mutates.
pub record State : Type 0 where
  pub marks : Dict Text Mark
  pub order : List Text

-- `circular node` is the `ValueError`, which names the node; `out_of_fuel` is no outcome of the
-- source and is proved never to arise.
pub data Result {ℓ} (A : Type ℓ) : Type ℓ where
  ok : A → Result A
  circular : Text → Result A
  out_of_fuel : Result A

infixl 5 ◌>>=◌
abbrev pub ◌>>=◌ {ℓ κ} : {A : Type ℓ} {B : Type κ} → Result A → (A → Result B) → Result B
ok a >>= f = f a
circular n >>= f = circular n
out_of_fuel >>= f = out_of_fuel

abbrev pub start : State
start = record { marks = []; order = [] }

-- `visited[node] = mark`
unfoldable pub set_mark : Text → Mark → State → State
set_mark node mark s = record s { marks = insert node mark s.marks }

-- `visited[node] = "visited"; order.append(node)`
unfoldable pub finish : Text → State → State
unfolding set_mark
finish node s = record (set_mark node visited s) { order = s.order ++ node ∷ [] }

-- `for dep in deps: if dep in graph: visit(dep)`
unfoldable pub visit_deps : Graph → (Text → State → Result State) → List Text → State → Result State
visit_deps graph call [] s = ok s
visit_deps graph call (dep ∷ deps) s = do
  s' ← if has_key dep graph then call dep s else ok s
  visit_deps graph call deps s'

-- `visit`, with a bound on the depth of its recursion.
unfoldable pub visit : Graph → ℕ → Text → State → Result State
visit graph zero node s = out_of_fuel
visit graph (suc fuel) node s = elim (lookup node s.marks) [
  | some visiting ↦ circular node
  | some visited ↦ ok s
  | none ↦ do
    s' ← visit_deps graph (visit graph fuel) (lookup_or node graph []) (set_mark node visiting s)
    ok (finish node s')
]

-- `for node in graph: visit(node)`
unfoldable pub visit_all : Graph → ℕ → List Text → State → Result State
visit_all graph fuel [] s = ok s
visit_all graph fuel (node ∷ nodes) s = do
  s' ← visit graph fuel node s
  visit_all graph fuel nodes s'

-- A chain of nested calls visits distinct nodes of the graph before it meets a marked one.
unfoldable pub topological_sort : Graph → Result (List Text)
unfolding visit_all visit visit_deps finish set_mark
topological_sort graph = do s ← visit_all graph (suc (length graph)) (keys graph) start; ok s.order
