-- ===== src/Changelog/Expansion.antt =====
-- What `expand_entity` makes of a value, and that it ends.
use auto_lfs_builder.Prelude.{
  subst, ℕ, zero, suc, ◌-◌, ◌<◌, ◌≡◌, refl, sym, ap, ◌∙◌, List, [], ◌∷◌, ◌++◌, append_assoc,
  append-nil, All, length, drop, none, some, arith, Option-cases, inl, inr, nat_eq, list_eq,
  contains, Dict, lookup, length-append,
}
use auto_lfs_builder.Text.{Text}
use auto_lfs_builder.Text.Parts.{Lacks}
use auto_lfs_builder.Changelog.RoundTrip.{take-front}
use auto_lfs_builder.KernelConfig.Lines.{drop_end}
use auto_lfs_builder.Changelog.Entity.{
  key_error, index_error, type_error, out_of_fuel, Result, ok, raise, ◌>>=◌, expand_value,
  expand_entity,
}

-- A value is text and references.
pub data Piece : Type 0 where
  text : Text → Piece
  reference : Text → Piece

abbrev pub IsPiece : Piece → Type 0
IsPiece (text t) = Lacks b'&' t
IsPiece (reference name) = Lacks b'&' name × Lacks b';' name

abbrev pub written : Piece → Text
written (text t) = t
written (reference name) = b'&' ∷ (name ++ b';' ∷ [])

abbrev pub write_all : List Piece → Text
write_all [] = []
write_all (p ∷ ps) = written p ++ write_all ps

-- The pieces one after the other, each reference replaced by what `expand` makes of it.
unfoldable pub expand_pieces : (Text → Result Text) → List Piece → Result Text
expand_pieces expand [] = ok []
expand_pieces expand (text t ∷ ps) = do rest ← expand_pieces expand ps; ok (t ++ rest)
expand_pieces expand (reference name ∷ ps) = do
  expanded ← expand name
  rest ← expand_pieces expand ps
  ok (expanded ++ rest)

module _ (expand : Text → Result Text) where
  -- Outside of a reference text is copied.
  expand_value-text :
      (t value out : Text)
      → Lacks b'&' t
      → expand_value expand (t ++ value) out [] ≡ expand_value expand value (out ++ t) []
  unfolding expand_value contains
  expand_value-text [] value out h = ap (λ o. expand_value expand value o []) (sym (append-nil out))
  expand_value-text (c ∷ t) value out h = ground (
    arith,
    expand_value-text t value (out ++ c ∷ []),
    append_assoc out (c ∷ []) t,
    nat_eq.beq_iff b'&' c,
  )

  -- Inside it is collected, up to the semicolon.
  expand_value-name :
      (name value out : Text) (a : ℕ) (sub : Text)
      → Lacks b'&' name
      → Lacks b';' name
      → expand_value expand (name ++ b';' ∷ value) out (a ∷ sub)
        ≡ expand_value expand (b';' ∷ value) out (a ∷ (sub ++ name))
  unfolding expand_value contains
  expand_value-name [] value out a sub h k =
      ap (λ s. expand_value expand (b';' ∷ value) out (a ∷ s)) (sym (append-nil sub))
  expand_value-name (c ∷ name) value out a sub h k = ground (
    arith,
    expand_value-name name value out a (sub ++ c ∷ []),
    append_assoc sub (c ∷ []) name,
    nat_eq.beq_iff b'&' c,
    nat_eq.beq_iff b';' c,
  )

  inner : (a : ℕ) (name : Text) (c : ℕ) → drop 1 (drop_end 1 (a ∷ (name ++ c ∷ []))) ≡ name
  inner a name c =
      let n : length (a ∷ (name ++ c ∷ [])) - 1 ≡ suc (length name) =
        omega (arith, length-append name (c ∷ [])) in
      rw n (take-front name (c ∷ []))

  expand_value-reference :
      (name value out : Text)
      → IsPiece (reference name)
      → expand_value expand (written (reference name) ++ value) out []
        ≡ (expand name >>= λ expanded. expand_value expand value (out ++ expanded) [])
  unfolding expand_value
  expand_value-reference name value out (h, k) =
      ap (λ s. expand_value expand s out (b'&' ∷ [])) (append_assoc name (b';' ∷ []) value)
      ∙ expand_value-name name value out b'&' [] h k
      ∙ ap (λ n. expand n >>= λ expanded. expand_value expand value (out ++ expanded) [])
          (inner b'&' name b';')

  bind_text :
      (m : Result Text) (out t : Text)
      → (m >>= λ rest. ok ((out ++ t) ++ rest))
        ≡ ((m >>= λ rest. ok (t ++ rest)) >>= λ rest. ok (out ++ rest))
  bind_text (ok rest) out t = ap ok (append_assoc out t rest)
  bind_text (raise e) out t = refl

  bind_reference :
      (m : Result Text) (ps : List Piece) (out : Text)
      → ((o : Text)
          → expand_value expand (write_all ps) o []
            ≡ (expand_pieces expand ps >>= λ rest. ok (o ++ rest)))
      → (m >>= λ expanded. expand_value expand (write_all ps) (out ++ expanded) []) ≡ (
          (m >>= λ expanded. expand_pieces expand ps >>= λ rest. ok (expanded ++ rest)) >>= λ rest.
          ok (out ++ rest))
  bind_reference (ok expanded) ps out ih =
      ih (out ++ expanded) ∙ bind_text (expand_pieces expand ps) out expanded
  bind_reference (raise e) ps out ih = refl

  expand_value-pieces :
      (ps : List Piece) (out : Text)
      → All IsPiece ps
      → expand_value expand (write_all ps) out []
        ≡ (expand_pieces expand ps >>= λ rest. ok (out ++ rest))
  unfolding expand_pieces
  expand_value-pieces [] out h = unfold expand_value in ap ok (sym (append-nil out))
  expand_value-pieces (text t ∷ ps) out h =
      expand_value-text t (write_all ps) out h.0
      ∙ expand_value-pieces ps (out ++ t) h.1
      ∙ bind_text (expand_pieces expand ps) out t
  expand_value-pieces (reference name ∷ ps) out h =
      expand_value-reference name (write_all ps) out h.0
      ∙ bind_reference (expand name) ps out (λ o. expand_value-pieces ps o h.1)

bind-ok : (m : Result Text) → (m >>= λ rest. ok rest) ≡ m
bind-ok (ok rest) = refl
bind-ok (raise e) = refl

-- An entity whose value is text and references, `&name;`, expands to its texts and to what the names
-- expand to, in their order, or raises the first exception that one of these raises.
pub expand_entity-pieces :
    (fuel : ℕ) (ent : Dict Text Text) (key : Text) (ps : List Piece)
    → All IsPiece ps
    → lookup key ent ≡ some (write_all ps)
    → expand_entity (suc fuel) ent key ≡ expand_pieces (expand_entity fuel ent) ps
unfolding expand_entity
expand_entity-pieces fuel ent key ps h found =
    ap
      (λ o. elim o as (λ _. Result Text) [
        | none ↦ raise (key_error key)
        | some value ↦ expand_value (expand_entity fuel ent) value [] []
      ])
      found
    ∙ expand_value-pieces (expand_entity fuel ent) ps [] h
    ∙ bind-ok (expand_pieces (expand_entity fuel ent) ps)

-- A reference names an entity of a rank below the bound.
abbrev pub RefersBelow : (Text → ℕ) → ℕ → Piece → Type 0
RefersBelow rank n (text t) = Unit
RefersBelow rank n (reference name) = rank name < n

-- Every value is text and references to entities of lower rank.
abbrev pub IsRanked : Dict Text Text → (Text → ℕ) → Type 0
IsRanked ent rank =
    (key value : Text)
    → lookup key ent ≡ some value
    → (ps : List Piece) × All IsPiece ps
      × (value ≡ write_all ps)
      × All (RefersBelow rank (rank key)) ps

-- A text, or the exception for a name that is not there.
abbrev pub IsExpansion : Dict Text Text → Result Text → Type 0
IsExpansion ent (ok t) = Unit
IsExpansion ent (raise (key_error name)) = lookup name ent ≡ none
IsExpansion ent (raise index_error) = ⊥
IsExpansion ent (raise type_error) = ⊥
IsExpansion ent (raise out_of_fuel) = ⊥

module _ (ent : Dict Text Text) where
  bind-IsExpansion :
      (m : Result Text) (f : Text → Result Text)
      → IsExpansion ent m
      → ((a : Text) → IsExpansion ent (f a))
      → IsExpansion ent (m >>= f)
  bind-IsExpansion (ok a) f h k = k a
  bind-IsExpansion (raise e) f h k = h

  expand_pieces-IsExpansion :
      (expand : Text → Result Text) (rank : Text → ℕ) (n : ℕ) (ps : List Piece)
      → ((name : Text) → rank name < n → IsExpansion ent (expand name))
      → All (RefersBelow rank n) ps
      → IsExpansion ent (expand_pieces expand ps)
  unfolding expand_pieces
  expand_pieces-IsExpansion expand rank n [] ends h = tt
  expand_pieces-IsExpansion expand rank n (text t ∷ ps) ends h =
      bind-IsExpansion (expand_pieces expand ps) (λ rest. ok (t ++ rest))
        (expand_pieces-IsExpansion expand rank n ps ends h.1) (λ a. tt)
  expand_pieces-IsExpansion expand rank n (reference name ∷ ps) ends h =
      bind-IsExpansion (expand name)
        (λ expanded. expand_pieces expand ps >>= λ rest. ok (expanded ++ rest)) (ends name h.0)
        (λ expanded.
          bind-IsExpansion (expand_pieces expand ps) (λ rest. ok (expanded ++ rest))
            (expand_pieces-IsExpansion expand rank n ps ends h.1) (λ a. tt))

expand_entity-missing :
    (fuel : ℕ) (ent : Dict Text Text) (key : Text)
    → lookup key ent ≡ none
    → expand_entity (suc fuel) ent key ≡ raise (key_error key)
unfolding expand_entity
expand_entity-missing fuel ent key e =
    ap
      (λ o. elim o as (λ _. Result Text) [
        | none ↦ raise (key_error key)
        | some value ↦ expand_value (expand_entity fuel ent) value [] []
      ])
      e

-- If the entities refer to entities of lower rank only, a bound above the rank of the entity is
-- enough: its expansion ends, with a text or with the exception for a name that is not there.
pub expand_entity-IsRanked :
    (fuel : ℕ) (ent : Dict Text Text) (rank : Text → ℕ) (key : Text)
    → IsRanked ent rank
    → rank key < fuel
    → IsExpansion ent (expand_entity fuel ent key)
expand_entity-IsRanked zero ent rank key ranked small = absurd (omega (arith, small))
expand_entity-IsRanked (suc fuel) ent rank key ranked small = elim (Option-cases (lookup key ent)) [
  | inl e ↦ subst (IsExpansion ent) (sym (expand_entity-missing fuel ent key e)) e
  | inr (value, e) ↦
      let (ps, pieces, written_so, below) = ranked key value e in
      subst (IsExpansion ent)
        (sym (expand_entity-pieces fuel ent key ps pieces (e ∙ ap some written_so)))
        (expand_pieces-IsExpansion ent (expand_entity fuel ent) rank (rank key) ps
          (λ name lower.
            expand_entity-IsRanked fuel ent rank name ranked (omega (arith, lower, small)))
          below)
]
