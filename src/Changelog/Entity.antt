-- ===== src/Changelog/Entity.antt =====
-- `get_entity` and `expand_entity` of gen-changelog.py.
use auto_lfs_builder.Prelude.{
  ℕ, zero, suc, ◌+◌, [], ◌∷◌, ◌++◌, take, drop, true, false, not, Option, none, some, nat_eq,
  list_eq, ◌==◌, if◌then◌else◌, Dict, lookup,
}
use auto_lfs_builder.Text.{Text, codes, is_nil, starts_with}
use auto_lfs_builder.KernelConfig.Lines.{before_quote, drop_end}

pub data Exception : Type 0 where
  -- `ent[key]` of a key that is not there
  key_error : Text → Exception
  -- `i[0]` of an empty line
  index_error : Exception
  -- a text and `None` joined by `+`
  type_error : Exception
  -- No outcome of the source: the bound on nested entities is met.
  out_of_fuel : Exception

pub data Result {ℓ} (A : Type ℓ) : Type ℓ where
  ok : A → Result A
  raise : Exception → Result A

infixl 5 ◌>>=◌
abbrev pub ◌>>=◌ {ℓ κ} : {A : Type ℓ} {B : Type κ} → Result A → (A → Result B) → Result B
ok a >>= f = f a
raise e >>= f = raise e

-- `s.find(part)`; `none` is -1.
unfoldable pub find : Text → Text → Option ℕ
unfolding starts_with
find part [] = if is_nil part then some 0 else none
find part (c ∷ s) =
    let rest = find part s in
    if starts_with part (c ∷ s) then some 0 else elim rest [ none ↦ none | some i ↦ some (suc i) ]

-- `line[len("<!ENTITY "):pos]` and `line[pos + 2:]`, where `none` is the position -1.
unfoldable pub entity_key : Option ℕ → Text → Text
entity_key none line = drop 9 (drop_end 1 line)
entity_key (some pos) line = drop 9 (take pos line)

unfoldable pub entity_value : Option ℕ → Text → Text
entity_value none line = drop 1 line
entity_value (some pos) line = drop (pos + 2) line

unfoldable pub get_entity : Text → Option (Text × Text)
unfolding starts_with
get_entity line =
    let line = drop 1 line in
    let quote_pos = find (codes " \"") line in
    if not (starts_with (codes "<!ENTITY ") line)
    then none
    else some (entity_key quote_pos line, before_quote (entity_value quote_pos line))

-- The loop of `expand_entity` over the value, with `out` and `sub_ent`.
unfoldable pub expand_value : (Text → Result Text) → Text → Text → Text → Result Text
expand_value expand [] out sub_ent = ok out
expand_value expand (c ∷ value) out sub_ent = elim (c == b'&') [
  | true ↦ expand_value expand value out (c ∷ [])
  | false ↦ elim (is_nil sub_ent) [
    | true ↦ expand_value expand value (out ++ c ∷ []) []
    | false ↦ elim (c == b';') [
      | false ↦ expand_value expand value out (sub_ent ++ c ∷ [])
      | true ↦ do
        expanded ← expand (drop 1 (drop_end 1 (sub_ent ++ c ∷ [])))
        expand_value expand value (out ++ expanded) []
    ]
  ]
]

-- With a bound on the depth of the entities that name each other.
unfoldable pub expand_entity : ℕ → Dict Text Text → Text → Result Text
unfolding expand_value lookup
expand_entity zero ent key = raise out_of_fuel
expand_entity (suc fuel) ent key = elim (lookup key ent) [
  | none ↦ raise (key_error key)
  | some value ↦ expand_value (expand_entity fuel ent) value [] []
]
