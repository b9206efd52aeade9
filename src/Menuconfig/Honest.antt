-- ===== src/Menuconfig/Honest.antt =====
-- The entries of menuconfig.py show what the keys can do.
use auto_lfs_builder.Prelude.{
  ℕ, suc, ◌+◌, ◌-◌, ◌<◌, ◌≡◌, refl, ap, ◌∙◌, [], ◌∷◌, ◌++◌, length, Bool, true, false, not, ◌||◌,
  ◌&&◌, Bool-cases, inl, inr, append_assoc, subst, some, arith, nat_eq, list_eq, contains, on_if,
  ltb, leb,
}
use auto_lfs_builder.Text.{Text, codes, is_nil, ends_with}
use auto_lfs_builder.Text.Affix.{ends_with-append, ends_with-other}
use auto_lfs_builder.KernelConfig.Layout.{spaces}
use auto_lfs_builder.Menuconfig.Kconf.{Kconf, Item, is_symbol, is_choice}
use auto_lfs_builder.Menuconfig.Shown.{shown_nodes}
use auto_lfs_builder.Menuconfig.Navigate.{State, enter_menu}
use auto_lfs_builder.Menuconfig.ChangeNode.{is_text_kind, is_y_mode_choice_sym, changeable}
use auto_lfs_builder.Menuconfig.Entry.{
  Labels, is_unknown, is_bool_kind, is_m_y, tri_value_str, value_str, menu_str, node_str, indent,
  name_str, prompt_str, selection_str,
}

-- Whether a text begins with a bracket.
unfoldable pub has_bracket : Text → Bool
unfolding contains
has_bracket [] = false
has_bracket (c ∷ text) = contains c (codes "([{<")

module _ {V : Type 0} (kconf : Kconf V) where
  -- If the node has a menu, the text ends with the arrow exactly when the menu can be entered, and
  -- with four dashes exactly when it cannot.
  abbrev pub TellsMenu : ℕ → State V → Text → Type 0
  TellsMenu node s text =
      ((kconf.is_menuconfig node && ends_with (codes "  --->") text) ≡ (enter_menu kconf node s).0)
      × ((kconf.is_menuconfig node && ends_with (codes "  ----") text)
          ≡ (kconf.is_menuconfig node && not (enter_menu kconf node s).0))

module _ {V : Type 0} (kconf : Kconf V) (labels : Labels V) where
  tri_value_str-has_bracket :
      (v : V) (item : Item)
      → has_bracket (tri_value_str kconf labels v item)
        ≡ (ltb 1 (length (kconf.assignable v item)) || is_y_mode_choice_sym kconf v item)
  unfolding has_bracket tri_value_str contains
  tri_value_str-has_bracket v item =
      let Shows = λ (t : Text).
        has_bracket t
        ≡ (ltb 1 (length (kconf.assignable v item)) || is_y_mode_choice_sym kconf v item) in
      on_if Shows (is_y_mode_choice_sym kconf v item)
        (λ q.
          on_if Shows (labels.is_selection v item) (λ _. ground (arith, q))
            (λ _. ground (arith, q)))
        (λ q.
          on_if Shows (leb (length (kconf.assignable v item)) 1)
            (λ few.
              on_if Shows (is_choice item) (λ _. ground (arith, q, few))
                (λ _. ground (arith, q, few)))
            (λ many.
              on_if Shows (is_bool_kind (labels.type v item)) (λ _. ground (arith, q, many))
                (λ _.
                  on_if Shows (is_m_y (kconf.assignable v item)) (λ _. ground (arith, q, many))
                    (λ _. ground (arith, q, many)))))

  menu_str-TellsMenu :
      (node : ℕ) (s : State V) (front : Text)
      → TellsMenu kconf node s (front ++ menu_str kconf labels s.values s.show_all node)
  unfolding menu_str enter_menu
  menu_str-TellsMenu node s front = elim (Bool-cases (kconf.is_menuconfig node)) [
    | inr q ↦ ground (arith, q)
    | inl q ↦ elim (Bool-cases (is_nil (shown_nodes kconf s.values s.show_all node))) [
      | inl e ↦
          rw (q, e)
            (
              ends_with-other (codes "  --->") (codes "  ----") front refl (λ h. cc),
              ends_with-append (codes "  ----") front,
            )
      | inr e ↦
          rw (q, e)
            (
              ends_with-append (codes "  --->") front,
              ends_with-other (codes "  ----") (codes "  --->") front refl (λ h. cc),
            )
    ]
  ]

  behind_four :
      (a b c d e f : Text) → (a ++ (b ++ (c ++ (d ++ e)))) ++ f ≡ a ++ (b ++ (c ++ (d ++ (e ++ f))))
  behind_four a b c d e f = simp append_assoc

  node_str-TellsMenu :
      (show_name : Bool) (node : ℕ) (s : State V)
      → TellsMenu kconf node s (node_str kconf labels show_name node s)
  unfolding node_str
  node_str-TellsMenu show_name node s =
      let value = value_str kconf labels s.values node in
      let gap = spaces (3 + indent kconf labels (kconf.parents node) - length value) in
      let name = name_str kconf labels show_name node in
      let prompt = prompt_str kconf labels s.values node in
      let selection = selection_str kconf labels s.values node in
      subst (TellsMenu kconf node s) (behind_four value gap name prompt selection _)
        (menu_str-TellsMenu node s (value ++ (gap ++ (name ++ (prompt ++ selection)))))

  at_front :
      (value rest : Text) (n : ℕ)
      → has_bracket (value ++ (spaces (3 + n - length value) ++ rest)) ≡ has_bracket value
  unfolding has_bracket contains
  at_front [] rest n =
      let one_more : 3 + n - 0 ≡ suc (2 + n) = omega arith in
      ap (λ k. has_bracket (spaces k ++ rest)) one_more
  at_front (c ∷ value) rest n = refl

  -- The text of a symbol or a choice whose type is known and whose prompt is visible begins with a
  -- bracket exactly when its value can be changed; if it has a menu, the text ends with the arrow
  -- exactly when the menu can be entered, and with four dashes exactly when it cannot.
  pub entry-shows :
      (show_name : Bool) (node prompt : ℕ) (s : State V)
      → (is_symbol (kconf.item node) || is_choice (kconf.item node)) ≡ true
      → is_unknown (kconf.orig_type (kconf.item node)) ≡ false
      → kconf.prompt_value s.values node ≡ some prompt
      → 0 < prompt
      → (has_bracket (node_str kconf labels show_name node s) ≡ changeable kconf s.values node)
        × TellsMenu kconf node s (node_str kconf labels show_name node s)
  unfolding node_str value_str changeable has_bracket contains
  entry-shows show_name node prompt s sc known visible p = (
    at_front (value_str kconf labels s.values node)
          (name_str kconf labels show_name node
            ++ (prompt_str kconf labels s.values node
                ++ (selection_str kconf labels s.values node
                    ++ menu_str kconf labels s.values s.show_all node)))
          (indent kconf labels (kconf.parents node))
        ∙ on_if (λ t. has_bracket t ≡ changeable kconf s.values node)
            (not (is_symbol (kconf.item node) || is_choice (kconf.item node))
              || is_unknown (kconf.orig_type (kconf.item node)))
            (λ q. absurd (ground (arith, sc, known, q)))
            (λ _.
              on_if (λ t. has_bracket t ≡ changeable kconf s.values node)
                (is_text_kind (kconf.orig_type (kconf.item node)))
                (λ q. ground (arith, sc, visible, p, q))
                (λ q.
                  tri_value_str-has_bracket s.values (kconf.item node)
                  ∙ ground (arith, sc, visible, p, q))),
    node_str-TellsMenu show_name node s,
  )
