-- ===== src/KernelConfig/Selected.antt =====
-- What the counting of references leaves: no entry is shown without the one that it depends on.
use auto_lfs_builder.Prelude.{
  ℕ, zero, suc, ◌<◌, ◌≡◌, ◌≢◌, inl, inr, sym, ap, subst, ◌∙◌, List, [], ◌∷◌, length, get_elem?,
  get_elem?-set_self, true, ◌||◌, none, some, arith, Bool-cases, Option-cases, nat_eq, ◌==◌, Dict,
  lookup,
}
use auto_lfs_builder.KernelConfig.Stack.{steps, Key, key_eq, ok}
use auto_lfs_builder.KernelConfig.Entry.{Entry}
use auto_lfs_builder.KernelConfig.Mark.{
  index_ikey, no_dep, unselected, mark_entry, mark_entries, mark_all,
}
use auto_lfs_builder.KernelConfig.Evolution.{
  Evolves, Outcome, quiet, found, marked, DependsOn, PointsBack, mark_entry-Outcome,
  Outcome-Evolves, Outcome-frame, earlier, later, PointsBack-Evolves, mark_entries-Evolves,
  mark_entries-frame,
}

module _ (index : Dict Key ℕ) (main_dep : Dict Key Key) where
  -- The entry at that index that is depended on is selected.
  abbrev pub IsSelected : List Entry → ℕ → Type 0
  IsSelected r j = (dep : Entry) × (get_elem? r j ≡ some dep) × (dep.val ≢ none)

  IsSelected-Evolves : (r r' : List Entry) (j : ℕ) → Evolves r r' → IsSelected r j → IsSelected r' j
  IsSelected-Evolves r r' j ev (dep, at, s) =
      let (e', at', keep) = later index main_dep r r' j dep ev at in (e', at', keep s)

  same_dep :
      (entry : Entry) (fa fa' : Key) (j j' : ℕ)
      → DependsOn index main_dep entry fa j
      → DependsOn index main_dep entry fa' j'
      → j' ≡ j
  same_dep entry fa fa' j j' (d, n, z) (d', n', z') = cc (d, z, d', z')

  quiet_absurd :
      (entry : Entry) (fa : Key) (j : ℕ)
      → (unselected entry.val || no_dep (lookup entry.internal_key main_dep)) ≡ true
      → entry.val ≢ none
      → DependsOn index main_dep entry fa j
      → ⊥
  unfolding unselected
  quiet_absurd entry fa j q s (d, n, z) = elim (Option-cases entry.val) [
    | inl e ↦ s e
    | inr (v, e) ↦ absurd (ground (arith, q, e, d, n))
  ]

  Outcome-IsSelected :
      (i j : ℕ) (r r' : List Entry) (entry : Entry) (fa : Key)
      → Outcome index main_dep i r r' entry
      → entry.val ≢ none
      → DependsOn index main_dep entry fa j
      → IsSelected r' j
  Outcome-IsSelected i j r r' entry fa (quiet q e) s d = absurd (quiet_absurd entry fa j q s d)
  Outcome-IsSelected i j r r' entry fa (found fa' j' dep d' z s' e) s d =
      subst (IsSelected r') (same_dep entry fa fa' j j' d d')
        (dep, ap (λ l. get_elem? l j') e ∙ z, s')
  Outcome-IsSelected i j r r' entry fa (marked fa' j' dep d' z e) s d =
      subst (IsSelected r') (same_dep entry fa fa' j j' d d') (
        record dep { val = some [] },
        ap (λ l. get_elem? l j') e ∙ get_elem?-set_self r j' (record dep { val = some [] }) dep z,
        λ q. cc q,
      )

  mark_entries-IsSelected :
      (n : ℕ) (r r' : List Entry)
      → PointsBack index main_dep r
      → mark_entries index main_dep n r ≡ ok r'
      → (i j : ℕ) (entry : Entry) (fa : Key) → i < n
      → get_elem? r' i ≡ some entry
      → entry.val ≢ none
      → DependsOn index main_dep entry fa j
      → IsSelected r' j
  unfolding mark_entries
  mark_entries-IsSelected zero r r' back h i j entry fa below at s d = absurd (omega (arith, below))
  mark_entries-IsSelected (suc n) r r' back h i j entry fa below at s d =
      let (r1, first, rest) = steps (mark_entry index main_dep n r) _ h in
      let (e, here, out) = mark_entry-Outcome index main_dep n r r1 first in
      let back1 =
        PointsBack-Evolves index main_dep r r1 (Outcome-Evolves index main_dep n r r1 e out) back in
      elim (Bool-cases (i == n)) [
        | inl q ↦
            let at' : get_elem? r' n ≡ some entry =
              subst (λ k. get_elem? r' k ≡ some entry) ((nat_eq.beq_iff i n).0 q) at in
            let unchanged : get_elem? r n ≡ some entry =
              sym (
                mark_entries-frame index main_dep n n r1 r' back1 rest (omega arith)
                ∙ Outcome-frame index main_dep n n r r1 e back here out (omega arith))
              ∙ at' in
            let same : e ≡ entry = cc (here, unchanged) in
            IsSelected-Evolves r1 r' j (mark_entries-Evolves index main_dep n r1 r' rest) (
              Outcome-IsSelected n j r r1 entry fa (subst (Outcome index main_dep n r r1) same out)
                s d)
        | inr q ↦
            mark_entries-IsSelected n r1 r' back1 rest i j entry fa (ground (arith, below, q)) at s
              d
      ]

get_elem?-lt : (r : List Entry) (i : ℕ) (e : Entry) → get_elem? r i ≡ some e → i < length r
get_elem?-lt [] i e h = cc
get_elem?-lt (x ∷ r) zero e h = omega arith
get_elem?-lt (x ∷ r) (suc i) e h = omega (arith, get_elem?-lt r i e h)

-- If what an entry depends on always stands in front of it, then after the counting of references
-- every entry that has a setting or is marked as used depends on one that has or is so, too.
pub mark_all-IsSelected :
    (main_dep : Dict Key Key) (r r' : List Entry)
    → PointsBack (index_ikey 0 r) main_dep r
    → mark_all main_dep r ≡ ok r'
    → (i j : ℕ) (entry : Entry) (fa : Key) → get_elem? r' i ≡ some entry
    → entry.val ≢ none
    → DependsOn (index_ikey 0 r) main_dep entry fa j
    → IsSelected (index_ikey 0 r) main_dep r' j
unfolding mark_all
mark_all-IsSelected main_dep r r' back h i j entry fa at s d =
    let (e, was, same) =
      earlier (index_ikey 0 r) main_dep r r' i entry
        (mark_entries-Evolves (index_ikey 0 r) main_dep (length r) r r' h) at in
    mark_entries-IsSelected (index_ikey 0 r) main_dep (length r) r r' back h i j entry fa
      (get_elem?-lt r i e was) at s d
