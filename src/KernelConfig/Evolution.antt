-- ===== src/KernelConfig/Evolution.antt =====
-- How the counting of references changes the entries.
use auto_lfs_builder.Prelude.{
  ℕ, zero, suc, ◌<◌, ◌≤◌, ◌≡◌, ◌≢◌, inl, inr, refl, sym, ap, subst, ◌∙◌, List, [], get_elem?, set,
  get_elem?-set_ne, get_elem?-set_self, true, false, ◌||◌, Option, none, some, arith, Bool-cases,
  Option-cases, nat_eq, ◌==◌, Dict, lookup,
}
use auto_lfs_builder.KernelConfig.Stack.{steps, Key, key_eq, ok}
use auto_lfs_builder.KernelConfig.Entry.{Entry}
use auto_lfs_builder.KernelConfig.Mark.{
  no_dep, is_number, untitled, unselected, mark_used, mark_dep, mark_entry, mark_entries,
}

-- An entry stays in its place, keeps its key and stays selected.
abbrev pub Kept : Entry → Option Entry → Type 0
Kept e none = ⊥
Kept e (some e') = (e'.internal_key ≡ e.internal_key) × (e.val ≢ none → e'.val ≢ none)

abbrev pub KeptAt : Option Entry → Option Entry → Type 0
KeptAt none o = o ≡ none
KeptAt (some e) o = Kept e o

unfoldable pub Evolves : List Entry → List Entry → Type 0
Evolves r r' = (k : ℕ) → KeptAt (get_elem? r k) (get_elem? r' k)

KeptAt-refl : (o : Option Entry) → KeptAt o o
KeptAt-refl none = refl
KeptAt-refl (some e) = (refl, λ h. h)

KeptAt-trans : (o p q : Option Entry) → KeptAt o p → KeptAt p q → KeptAt o q
KeptAt-trans none none q h k = k
KeptAt-trans none (some e) q h k = cc
KeptAt-trans (some e) (some f) (some g) h k = (k.0 ∙ h.0, λ s. k.1 (h.1 s))
KeptAt-trans (some e) (some f) none h k = k
KeptAt-trans (some e) none q h k = absurd h

ok-injective {ℓ} : {A : Type ℓ} {a b : A} → ok a ≡ ok b → a ≡ b
ok-injective h = cc h

module _ (index : Dict Key ℕ) (main_dep : Dict Key Key) where
  -- The entry depends on one that a key names and that stands at that index.
  abbrev pub DependsOn : Entry → Key → ℕ → Type 0
  DependsOn entry fa j =
      (lookup entry.internal_key main_dep ≡ some fa)
      × (no_dep (some fa) ≡ false)
      × (lookup fa index ≡ some j)

  -- What an entry depends on stands in front of it.
  abbrev pub PointsBack : List Entry → Type 0
  PointsBack r =
      (i j : ℕ) (entry : Entry) (fa : Key)
      → get_elem? r i ≡ some entry
      → DependsOn entry fa j
      → j < i

  -- The ways in which the body of the loop ends without an exception.
  pub data Outcome (i : ℕ) (r r' : List Entry) (entry : Entry) : Type 0 where
    quiet :
        (unselected entry.val || no_dep (lookup entry.internal_key main_dep)) ≡ true
        → r' ≡ r
        → Outcome i r r' entry
    found :
        (fa : Key) (j : ℕ) (dep : Entry)
        → DependsOn entry fa j
        → get_elem? r j ≡ some dep
        → dep.val ≢ none
        → r' ≡ r
        → Outcome i r r' entry
    marked :
        (fa : Key) (j : ℕ) (dep : Entry)
        → DependsOn entry fa j
        → get_elem? r j ≡ some dep
        → r' ≡ set r j (record dep { val = some [] })
        → Outcome i r r' entry

  mark_used-Outcome :
      (i j : ℕ) (r r' : List Entry) (entry : Entry) (key fa : Key)
      → DependsOn entry fa j
      → mark_used key fa j r ≡ ok r'
      → Outcome i r r' entry
  unfolding mark_used
  mark_used-Outcome i j r r' entry key fa dependence h = elim (Option-cases (get_elem? r j)) [
    | inl e ↦ absurd (ground (arith, e))
    | inr (dep, e) ↦ elim (Bool-cases (is_number fa || untitled dep.title)) [
      | inl q ↦ marked fa j dep dependence e (ground (arith, e, q))
      | inr q ↦ elim (Bool-cases (unselected dep.val)) [
        | inl u ↦ absurd (ground (arith, e, q, u))
        | inr u ↦
            found fa j dep dependence e (λ z. unfold unselected in cc (z, u))
              (ground (arith, e, q, u))
      ]
    ]
  ]

  pub mark_entry-Outcome :
      (i : ℕ) (r r' : List Entry)
      → mark_entry index main_dep i r ≡ ok r'
      → (entry : Entry) × (get_elem? r i ≡ some entry) × Outcome i r r' entry
  unfolding mark_entry mark_dep
  mark_entry-Outcome i r r' h = elim (Option-cases (get_elem? r i)) [
    | inl e ↦ absurd (ground (arith, e))
    | inr (entry, e) ↦ (entry, e, by_entry entry e)
  ]
    where
      by_dep :
          (entry : Entry) (fa : Key)
          → lookup entry.internal_key main_dep ≡ some fa
          → no_dep (some fa) ≡ false
          → mark_dep index entry.internal_key fa r ≡ ok r'
          → Outcome i r r' entry
      by_dep entry fa d n k = elim (Option-cases (lookup fa index)) [
        | inl z ↦ absurd (ground (arith, z))
        | inr (j, z) ↦
            mark_used-Outcome i j r r' entry entry.internal_key fa (d, n, z) (ground (arith, z))
      ]

      by_entry : (entry : Entry) → get_elem? r i ≡ some entry → Outcome i r r' entry
      by_entry entry e =
          elim (Bool-cases (unselected entry.val || no_dep (lookup entry.internal_key main_dep))) [
            | inl q ↦ quiet q (ground (arith, e, q))
            | inr q ↦ elim (Option-cases (lookup entry.internal_key main_dep)) [
              | inl d ↦ absurd (ground (arith, q, d))
              | inr (fa, d) ↦ by_dep entry fa d (ground (arith, q, d)) (ground (arith, e, q, d))
            ]
          ]

  set-Evolves :
      (r : List Entry) (j : ℕ) (dep : Entry)
      → get_elem? r j ≡ some dep
      → Evolves r (set r j (record dep { val = some [] }))
  unfolding Evolves
  set-Evolves r j dep e k = elim (Bool-cases (j == k)) [
    | inl q ↦
        let at : get_elem? (set r j (record dep { val = some [] })) k
            ≡ some (record dep { val = some [] }) =
          subst
            (λ n.
              get_elem? (set r j (record dep { val = some [] })) n
              ≡ some (record dep { val = some [] }))
            ((nat_eq.beq_iff j k).0 q)
            (get_elem?-set_self r j (record dep { val = some [] }) dep e) in
        let was : get_elem? r k ≡ some dep =
          subst (λ n. get_elem? r n ≡ some dep) ((nat_eq.beq_iff j k).0 q) e in
        rw (was, at) (refl, λ h z. cc z)
    | inr q ↦
        rw
          (get_elem?-set_ne r j k (record dep { val = some [] })
            (λ z. cc ((nat_eq.beq_iff j k).1 z, q)))
          (KeptAt-refl (get_elem? r k))
  ]

  pub Outcome-Evolves :
      (i : ℕ) (r r' : List Entry) (entry : Entry) → Outcome i r r' entry → Evolves r r'
  unfolding Evolves
  Outcome-Evolves i r r' entry (quiet q e) k = rw e (KeptAt-refl (get_elem? r k))
  Outcome-Evolves i r r' entry (found fa j dep d z s e) k = rw e (KeptAt-refl (get_elem? r k))
  Outcome-Evolves i r r' entry (marked fa j dep d z e) k = rw e (set-Evolves r j dep z k)

  -- Nothing changes from the entry itself on.
  pub Outcome-frame :
      (i k : ℕ) (r r' : List Entry) (entry : Entry)
      → PointsBack r
      → get_elem? r i ≡ some entry
      → Outcome i r r' entry
      → i ≤ k
      → get_elem? r' k ≡ get_elem? r k
  Outcome-frame i k r r' entry back at (quiet q e) h = ap (λ l. get_elem? l k) e
  Outcome-frame i k r r' entry back at (found fa j dep d z s e) h = ap (λ l. get_elem? l k) e
  Outcome-frame i k r r' entry back at (marked fa j dep d z e) h =
      let before : j < i = back i j entry fa at d in
      ap (λ l. get_elem? l k) e
      ∙ get_elem?-set_ne r j k (record dep { val = some [] }) (λ q. omega (arith, q, before, h))

  -- The entry that is behind an entry of the later list.
  pub earlier :
      (r r' : List Entry) (k : ℕ) (e' : Entry)
      → Evolves r r'
      → get_elem? r' k ≡ some e'
      → (e : Entry) × (get_elem? r k ≡ some e) × (e'.internal_key ≡ e.internal_key)
  unfolding Evolves
  earlier r r' k e' ev h = by_option (get_elem? r k) refl (ev k)
    where
      by_option :
          (o : Option Entry)
          → get_elem? r k ≡ o
          → KeptAt o (get_elem? r' k)
          → (e : Entry) × (get_elem? r k ≡ some e) × (e'.internal_key ≡ e.internal_key)
      by_option none z kept = cc (kept, h)
      by_option (some e) z kept = (e, z, (subst (Kept e) h kept).0)

  pub later :
      (r r' : List Entry) (k : ℕ) (e : Entry)
      → Evolves r r'
      → get_elem? r k ≡ some e
      → (e' : Entry) × (get_elem? r' k ≡ some e') × (e.val ≢ none → e'.val ≢ none)
  unfolding Evolves
  later r r' k e ev h =
      by_option (get_elem? r' k) refl (subst (λ o. KeptAt o (get_elem? r' k)) h (ev k))
    where
      by_option :
          (o : Option Entry)
          → get_elem? r' k ≡ o
          → Kept e (get_elem? r' k)
          → (e' : Entry) × (get_elem? r' k ≡ some e') × (e.val ≢ none → e'.val ≢ none)
      by_option none z kept = absurd (subst (Kept e) z kept)
      by_option (some e') z kept = (e', z, (subst (Kept e) z kept).1)

  pub PointsBack-Evolves : (r r' : List Entry) → Evolves r r' → PointsBack r → PointsBack r'
  PointsBack-Evolves r r' ev back i j entry fa at (d, n, z) =
      let (e, at', same) = earlier r r' i entry ev at in
      back i j e fa at' (ap (λ k. lookup k main_dep) (sym same) ∙ d, n, z)

  pub mark_entries-Evolves :
      (n : ℕ) (r r' : List Entry) → mark_entries index main_dep n r ≡ ok r' → Evolves r r'
  unfolding mark_entries Evolves
  mark_entries-Evolves zero r r' h = λ k.
      subst (λ l. KeptAt (get_elem? r k) (get_elem? l k)) (ok-injective h)
        (KeptAt-refl (get_elem? r k))
  mark_entries-Evolves (suc i) r r' h =
      let (r1, first, rest) = steps (mark_entry index main_dep i r) _ h in
      let (entry, at, out) = mark_entry-Outcome i r r1 first in
      λ k.
        KeptAt-trans (get_elem? r k) (get_elem? r1 k) (get_elem? r' k)
          (Outcome-Evolves i r r1 entry out k) (mark_entries-Evolves i r1 r' rest k)

  pub mark_entries-frame :
      (n k : ℕ) (r r' : List Entry)
      → PointsBack r
      → mark_entries index main_dep n r ≡ ok r'
      → n ≤ k
      → get_elem? r' k ≡ get_elem? r k
  unfolding mark_entries
  mark_entries-frame zero k r r' back h le = ap (λ l. get_elem? l k) (sym (ok-injective h))
  mark_entries-frame (suc i) k r r' back h le =
      let (r1, first, rest) = steps (mark_entry index main_dep i r) _ h in
      let (entry, at, out) = mark_entry-Outcome i r r1 first in
      mark_entries-frame i k r1 r' (PointsBack-Evolves r r1 (Outcome-Evolves i r r1 entry out) back)
        rest (omega (arith, le))
      ∙ Outcome-frame i k r r1 entry back at out (omega (arith, le))
