-- ===== src/Menuconfig/InRange.antt =====
-- The numbers that menuconfig.py lets in.
use auto_lfs_builder.Prelude.{
  ℕ, zero, suc, ◌<◌, ◌≡◌, refl, ap, ◌∙◌, subst, List, [], ◌∷◌, Bool, true, false, not, ◌&&◌, Option,
  none, some, ltb, arith, on_if, on_option, if◌then◌else◌, ◌⊎◌, inl, inr, nat_eq, list_eq, ◌==◌,
}
use auto_lfs_builder.Text.{Text}
use auto_lfs_builder.Menuconfig.Kconf.{
  Kconf, Item, Kind, is_node, int_kind, hex_kind, unknown_kind, bool_kind, tristate_kind,
  string_kind,
}
use auto_lfs_builder.Menuconfig.Navigate.{State, ◌>>=◌, leave_menu}
use auto_lfs_builder.Menuconfig.Change.{set_val}
use auto_lfs_builder.Menuconfig.Number.{
  ℤ, pos, negsuc, ◌≤ℤ◌, le_int, int_of, base_of, is_number_kind, check_ranges, check_valid,
}
use auto_lfs_builder.Menuconfig.ChangeNode.{
  is_text_kind, trimmed, enter_text, set_value_of, change_node, changeable, is_y_mode_choice_sym,
}
use auto_lfs_builder.Menuconfig.OnScreen.{some_steps, some-injective}
use auto_lfs_builder.Menuconfig.Same.{leave_menu-Same, update_menu-Same}

le_int-≤ℤ : (a b : ℤ) → le_int a b ≡ true → a ≤ℤ b
le_int-≤ℤ (pos a) (pos b) h = ground (arith, h)
le_int-≤ℤ (pos a) (negsuc b) h = cc h
le_int-≤ℤ (negsuc a) (pos b) h = omega arith
le_int-≤ℤ (negsuc a) (negsuc b) h = ground (arith, h)

-- A number lies between the ends of the first range whose condition holds, where there is one.
pub data InRanges (base : ℕ) (value : ℤ) : List (Text × Text × ℕ) → Type 0 where
  no_range : InRanges base value []
  skipped :
      (low_s high_s : Text) (ranges : List (Text × Text × ℕ))
      → InRanges base value ranges
      → InRanges base value ((low_s, high_s, 0) ∷ ranges)
  within :
      (low_s high_s : Text) (cond : ℕ) (ranges : List (Text × Text × ℕ)) (low high : ℤ)
      → 0 < cond
      → int_of base low_s ≡ some low
      → int_of base high_s ≡ some high
      → low ≤ℤ value
      → value ≤ℤ high
      → InRanges base value ((low_s, high_s, cond) ∷ ranges)

-- The text of a number in the range that the symbol has at that time.
pub record IsAllowed {V : Type 0} (kconf : Kconf V) (v : V) (sc : Item) (val : Text) : Type 0 where
  pub value : ℤ
  pub read : int_of (base_of (kconf.orig_type sc)) val ≡ some value
  pub in_ranges : InRanges (base_of (kconf.orig_type sc)) value (kconf.ranges v sc)

check_ranges-InRanges :
    (base : ℕ) (value : ℤ) (ranges : List (Text × Text × ℕ))
    → check_ranges base value ranges ≡ some true
    → InRanges base value ranges
unfolding check_ranges
check_ranges-InRanges base value [] h = no_range
check_ranges-InRanges base value ((low_s, high_s, zero) ∷ ranges) h =
    skipped low_s high_s ranges (check_ranges-InRanges base value ranges h)
check_ranges-InRanges base value ((low_s, high_s, suc cond) ∷ ranges) h =
    let (low, read_low, h1) =
      some_steps (int_of base low_s) _ (tested (ltb 0 (suc cond)) (ground arith) h) in
    let above : le_int low value ≡ true =
      on_if (λ o. o ≡ some true → le_int low value ≡ true) (le_int low value) (λ q _. q)
        (λ q e. cc (some-injective e)) h1 in
    let (high, read_high, h2) = some_steps (int_of base high_s) _ (rw above at h1) in
    within low_s high_s (suc cond) ranges low high (omega arith) read_low read_high
      (le_int-≤ℤ low value above) (le_int-≤ℤ value high (some-injective h2))
  where
    tested :
        (b : Bool)
        → b ≡ true
        → (elim b [
          | false ↦ check_ranges base value ranges
          | true ↦ do
            low ← int_of base low_s
            if le_int low value
                then (do high ← int_of base high_s; some (le_int value high))
                else some false
        ])
          ≡ some true
        → (do
          low ← int_of base low_s
          if le_int low value
              then (do high ← int_of base high_s; some (le_int value high))
              else some false)
          ≡ some true
    tested true t q = q
    tested false t q = cc t

module _ {V : Type 0} (kconf : Kconf V) where
  check_valid-IsAllowed :
      (v : V) (sc : Item) (val : Text)
      → is_number_kind (kconf.orig_type sc) ≡ true
      → check_valid kconf v sc val ≡ some true
      → IsAllowed kconf v sc val
  unfolding check_valid
  check_valid-IsAllowed v sc val number h =
      on_if (λ o. o ≡ some true → IsAllowed kconf v sc val)
        (not (is_number_kind (kconf.orig_type sc))) (λ q e. absurd (ground (arith, q, number)))
        (λ _ e.
          on_option (λ o. o ≡ some true → IsAllowed kconf v sc val)
            (int_of (base_of (kconf.orig_type sc)) val) (λ _ e1. cc (some-injective e1))
            (λ value read e1. record {
              value = value;
              read = read;
              in_ranges =
                  check_ranges-InRanges (base_of (kconf.orig_type sc)) value (kconf.ranges v sc) e1;
            })
            e)
        h

  abbrev Kept : State V → State V → Type 0
  Kept s s' = s'.values ≡ s.values

  -- The values are kept, or the symbol is set to a number in its range.
  unfoldable pub Allows : Item → State V → State V → Type 0
  Allows sc s s' =
      (s'.values ≡ s.values)
      ⊎ ((val : Text) × IsAllowed kconf s.values sc val
          × (s'.values ≡ kconf.set_value s.values sc val))

  set_val-Allows :
      (sc : Item) (val : Text) (s s' : State V)
      → IsAllowed kconf s.values sc val
      → set_val kconf sc val s ≡ some s'
      → Allows sc s s'
  unfolding set_val Allows
  set_val-Allows sc val s s' allowed e =
      on_if (λ o. o ≡ some s' → Allows sc s s') (val == kconf.str_value s.values sc)
        (λ _ e. inl (subst (Kept s) (some-injective e) refl))
        (λ _ e. inr (
          val,
          allowed,
          (update_menu-Same kconf
              (record s { values = kconf.set_value s.values sc val; conf_changed = true }) s' e).0,
        ))
        e

  enter_text-Allows :
      (sc : Item) (answers : List (Option Text)) (s s' : State V)
      → is_number_kind (kconf.orig_type sc) ≡ true
      → enter_text kconf sc answers s ≡ some s'
      → Allows sc s s'
  unfolding enter_text Allows
  enter_text-Allows sc [] s s' number e = inl (subst (Kept s) (some-injective e) refl)
  enter_text-Allows sc (none ∷ answers) s s' number e = inl (subst (Kept s) (some-injective e) refl)
  enter_text-Allows sc (some text ∷ answers) s s' number e =
      let val = trimmed (kconf.orig_type sc) text in
      let (is_valid, checked, e1) = some_steps (check_valid kconf s.values sc val) _ e in
      on_if (λ o. o ≡ some s' → Allows sc s s') is_valid
        (λ q e2.
          set_val-Allows sc val s s'
            (check_valid-IsAllowed s.values sc val number (checked ∙ ap some q)) e2)
        (λ _ e2. enter_text-Allows sc answers s s' number e2) e1

  text_kind : (k : Kind) → is_number_kind k ≡ true → is_text_kind k ≡ true
  text_kind int_kind h = refl
  text_kind hex_kind h = refl
  text_kind unknown_kind h = cc h
  text_kind bool_kind h = cc h
  text_kind tristate_kind h = cc h
  text_kind string_kind h = cc h

  set_value_of-Allows :
      (sc : Item) (answers : List (Option Text)) (s s' : State V)
      → is_number_kind (kconf.orig_type sc) ≡ true
      → set_value_of kconf sc answers s ≡ some s'
      → Allows sc s s'
  unfolding set_value_of
  set_value_of-Allows sc answers s s' number e =
      on_if (λ o. o ≡ some s' → Allows sc s s') (is_text_kind (kconf.orig_type sc))
        (λ _ e1. enter_text-Allows sc answers s s' number e1)
        (λ q e1. cc (q, text_kind (kconf.orig_type sc) number)) e

  Allows-refl : (sc : Item) (s : State V) → Allows sc s s
  unfolding Allows
  Allows-refl sc s = inl refl

  Allows-Kept : (sc : Item) (s t u : State V) → Allows sc s t → Kept t u → Allows sc s u
  unfolding Allows
  Allows-Kept sc s t u (inl same) k = inl (k ∙ same)
  Allows-Kept sc s t u (inr (val, allowed, set)) k = inr (val, allowed, k ∙ set)

  -- Changing the node of a symbol of type int or hex, whatever is entered in the dialog: either no value
  -- changes, or the symbol is set to the text of a number that lies in the first of its ranges whose
  -- condition holds, if there is one.
  pub change_node-Allows :
      (node : ℕ) (answers : List (Option Text)) (s : State V) (r : Bool × State V)
      → is_number_kind (kconf.orig_type (kconf.item node)) ≡ true
      → change_node kconf node answers s ≡ some r
      → Allows (kconf.item node) s r.1
  unfolding change_node
  change_node-Allows node answers s r number e =
      on_if (λ o. o ≡ some r → Allows sc s r.1) (not (changeable kconf s.values node))
        (λ _ e1.
          subst (λ (q : Bool × State V). Allows sc s q.1) (some-injective e1) (Allows-refl sc s))
        (λ _ e1.
          let (changed, set, e2) = some_steps (set_value_of kconf sc answers s) _ e1 in
          let allowed = set_value_of-Allows sc answers s changed number set in
          let (left, last, e3) = some_steps (left_of changed) _ e2 in
          subst (λ (q : Bool × State V). Allows sc s q.1) (some-injective e3)
            (Allows-Kept sc s changed left allowed (left_of-Kept changed left last)))
        e
    where
      sc : Item
      sc = kconf.item node

      left_of : State V → Option (State V)
      left_of changed =
          if is_y_mode_choice_sym kconf changed.values sc && not (is_node (kconf.list node))
          then leave_menu kconf changed
          else some changed

      left_of-Kept : (changed left : State V) → left_of changed ≡ some left → Kept changed left
      left_of-Kept changed left q =
          on_if (λ o. o ≡ some left → Kept changed left)
            (is_y_mode_choice_sym kconf changed.values sc && not (is_node (kconf.list node)))
            (λ _ t. (leave_menu-Same kconf changed left t).0)
            (λ _ t. subst (Kept changed) (some-injective t) refl) q
