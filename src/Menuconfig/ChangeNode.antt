-- ===== src/Menuconfig/ChangeNode.antt =====
-- `_change_node` and `_changeable` of menuconfig.py.
use auto_lfs_builder.Prelude.{
  ℕ, suc, ◌+◌, ◌%◌, List, [], ◌∷◌, ◌++◌, length, get_elem?, Bool, true, false, not, ◌&&◌, ◌||◌,
  Option, none, some, ltb, nat_eq, ◌==◌, if◌then◌else◌, list_eq, list_beq,
}
use auto_lfs_builder.Text.{Text, codes, strip, starts_with}
use auto_lfs_builder.Menuconfig.Kconf.{
  Kconf, Item, Kind, Tri, string_kind, int_kind, hex_kind, is_symbol, is_choice, is_node,
  tri_to_str,
}
use auto_lfs_builder.Menuconfig.Navigate.{State, ◌>>=◌, leave_menu}
use auto_lfs_builder.Menuconfig.Change.{set_val}
use auto_lfs_builder.Menuconfig.Number.{check_valid}

abbrev pub is_text_kind : Kind → Bool
is_text_kind string_kind = true
is_text_kind int_kind = true
is_text_kind hex_kind = true
is_text_kind _ = false

-- `tri_vals.index(t)`
unfoldable pub tri_index : Tri → List Tri → Option ℕ
unfolding list_beq
tri_index t [] = none
tri_index t (x ∷ tri_vals) =
    let rest = tri_index t tri_vals in
    if tri_to_str t == tri_to_str x
    then some 0
    else elim rest [ none ↦ none | some i ↦ some (suc i) ]

-- The text that is checked: that of a number without spaces, and with the prefix of its base.
unfoldable pub trimmed : Kind → Text → Text
unfolding strip starts_with
trimmed int_kind s = strip s
trimmed hex_kind s =
    if starts_with (codes "0x") (strip s) || starts_with (codes "0X") (strip s)
    then strip s
    else codes "0x" ++ strip s
trimmed _ s = s

module _ {V : Type 0} (kconf : Kconf V) where
  unfoldable pub is_y_mode_choice_sym : V → Item → Bool
  is_y_mode_choice_sym v item =
      is_symbol item && kconf.in_choice item && kconf.item_visibility v item == 2

  unfoldable pub changeable : V → ℕ → Bool
  unfolding is_y_mode_choice_sym
  changeable v n =
      let sc = kconf.item n in
      let is_shown : Bool = elim (kconf.prompt_value v n) [ none ↦ false | some p ↦ ltb 0 p ] in
      (is_symbol sc || is_choice sc)
      && is_shown
      && (is_text_kind (kconf.orig_type sc)
          || ltb 1 (length (kconf.assignable v sc))
          || is_y_mode_choice_sym v sc)

  -- The loop of the input dialog, over what it returns: `none` is Escape, which also follows a list
  -- that ends.
  unfoldable pub enter_text : Item → List (Option Text) → State V → Option (State V)
  unfolding trimmed check_valid set_val
  enter_text sc [] s = some s
  enter_text sc (none ∷ answers) s = some s
  enter_text sc (some text ∷ answers) s =
      let val = trimmed (kconf.orig_type sc) text in
      let rest = enter_text sc answers s in
      do
        is_valid ← check_valid kconf s.values sc val
        if is_valid then set_val kconf sc val s else rest

  -- The next of the values that can be assigned, after the last the first.
  unfoldable pub toggle_value : Item → State V → Option (State V)
  unfolding set_val tri_index
  toggle_value sc s =
      let values = kconf.assignable s.values sc in
      do
        val_index ← tri_index (kconf.tri_value s.values sc) values
        val ← get_elem? values ((val_index + 1) % length values)
        set_val kconf sc (tri_to_str val) s

  unfoldable pub set_value_of : Item → List (Option Text) → State V → Option (State V)
  unfolding enter_text toggle_value set_val
  set_value_of sc answers s =
      if is_text_kind (kconf.orig_type sc)
      then enter_text sc answers s
      else elim (kconf.assignable s.values sc) [
        | val ∷ [] ↦ set_val kconf sc (tri_to_str val) s
        | _ ↦ toggle_value sc s
      ]

  unfoldable pub change_node : ℕ → List (Option Text) → State V → Option (Bool × State V)
  unfolding changeable set_value_of leave_menu is_y_mode_choice_sym
  change_node node answers s = if not (changeable s.values node) then some (false, s) else (do
    changed ← set_value_of (kconf.item node) answers s
    left ←
        if is_y_mode_choice_sym changed.values (kconf.item node) && not (is_node (kconf.list node))
        then leave_menu kconf changed
        else some changed
    some (true, left))
