-- ===== src/Menuconfig/Matching.antt =====
-- The search of menuconfig.py finds the nodes that match each word.
use auto_lfs_builder.Prelude.{
  ℕ, ◌≡◌, subst, refl, sym, ap, ◌∙◌, List, [], ◌∷◌, ◌++◌, Bool, true, false, ◌&&◌, ◌||◌, none, some,
  arith, nat_eq, ◌==◌, contains, contains-append, on_if, on_option, Bool-cases, inl, inr,
  Option-cases, nat_beq_iff,
}
use auto_lfs_builder.Text.{Text, lower}
use auto_lfs_builder.KernelConfig.Lines.{split_words}
use auto_lfs_builder.Menuconfig.OnScreen.{some_steps, some-injective}
use auto_lfs_builder.Menuconfig.Search.{
  Named, Searched, text_leb, insert_by, sorted, nodes_of, name_key, text_or_empty, all_find,
  matching, sorted_sc_nodes, sorted_menu_comment_nodes, sc_found, menu_comment_found, compile_all,
  matches_of,
}

contains-insert_by :
    (key : ℕ → Text) (n x : ℕ) (xs : List ℕ) → contains n (insert_by key x xs) ≡ contains n (x ∷ xs)
unfolding insert_by contains
contains-insert_by key n x [] = refl
contains-insert_by key n x (y ∷ ys) = ground (arith, contains-insert_by key n x ys)

contains-sorted :
    (key : ℕ → Text) (n : ℕ) (xs : List ℕ) → contains n (sorted key xs) ≡ contains n xs
unfolding sorted contains
contains-sorted key n [] = refl
contains-sorted key n (x ∷ xs) =
    contains-insert_by key n x (sorted key xs) ∙ ap (λ b. n == x || b) (contains-sorted key n xs)

nodes_of-insert_by :
    (n : ℕ) (sc : Named) (scs : List Named)
    → contains n (nodes_of (insert_by name_key sc scs)) ≡ contains n (nodes_of (sc ∷ scs))
unfolding insert_by
nodes_of-insert_by n sc [] = refl
nodes_of-insert_by n sc (d ∷ scs) =
    on_if (λ l. contains n (nodes_of l) ≡ contains n (nodes_of (sc ∷ d ∷ scs)))
      (text_leb (name_key sc) (name_key d)) (λ _. refl)
      (λ _. ground (
        arith,
        contains-append n d.nodes (nodes_of (insert_by name_key sc scs)),
        contains-append n sc.nodes (d.nodes ++ nodes_of scs),
        contains-append n d.nodes (nodes_of scs),
        contains-append n sc.nodes (nodes_of scs),
        nodes_of-insert_by n sc scs,
      ))

nodes_of-sorted :
    (n : ℕ) (scs : List Named)
    → contains n (nodes_of (sorted name_key scs)) ≡ contains n (nodes_of scs)
unfolding sorted
nodes_of-sorted n [] = refl
nodes_of-sorted n (sc ∷ scs) =
    nodes_of-insert_by n sc (sorted name_key scs)
    ∙ contains-append n sc.nodes (nodes_of (sorted name_key scs))
    ∙ ap (λ b. contains n sc.nodes || b) (nodes_of-sorted n scs)
    ∙ sym (contains-append n sc.nodes (nodes_of scs))

contains-matching {ℓ} :
    {A : Type ℓ} (finds : A → ℕ → Bool) (searches : List A) (n : ℕ) (nodes : List ℕ)
    → contains n (matching finds searches nodes) ≡ (contains n nodes && all_find finds searches n)
unfolding matching contains
contains-matching finds searches n [] = refl
contains-matching finds searches n (x ∷ nodes) = elim (Bool-cases (n == x)) [
  | inl e ↦ ground (
    arith,
    e,
    contains-matching finds searches n nodes,
    ap (all_find finds searches) ((nat_beq_iff n x).0 e),
  )
  | inr e ↦ ground (arith, e, contains-matching finds searches n nodes)
]

module _ (searched : Searched) where
  -- Whether a word is a pattern that finds something.
  abbrev finds : ((Text → Bool) → ℕ → Bool) → Text → ℕ → Bool
  finds found word node = elim (searched.compile word) [
    | none ↦ false
    | some search ↦ found search node
  ]

  -- Whether the node is one of the symbols and choices, or of the menus and comments, and each word of
  -- the text finds something in its name or prompt.
  unfoldable pub is_match : Text → ℕ → Bool
  unfolding contains all_find split_words lower sc_found menu_comment_found
  is_match s node =
      let words = split_words (lower s) in
      (contains node (nodes_of searched.unique_defined_syms ++ nodes_of searched.unique_choices)
        && all_find (finds (sc_found searched)) words node)
      || (contains node (searched.menus ++ searched.comments)
          && all_find (finds (menu_comment_found searched)) words node)

  -- Whether the node is one of those that are searched.
  unfoldable pub is_searched : ℕ → Bool
  unfolding contains
  is_searched node =
      contains node (nodes_of searched.unique_defined_syms ++ nodes_of searched.unique_choices)
      || contains node (searched.menus ++ searched.comments)

  pub is_match-is_searched :
      (s : Text) (node : ℕ) → is_match s node ≡ true → is_searched node ≡ true
  unfolding is_match is_searched
  is_match-is_searched s node h = ground (arith, h)

  all_find-bad :
      (found : (Text → Bool) → ℕ → Bool) (words : List Text) (node : ℕ)
      → compile_all searched words ≡ none
      → all_find (finds found) words node ≡ false
  unfolding compile_all all_find
  all_find-bad found [] node h = cc h
  all_find-bad found (word ∷ words) node h = elim (Option-cases (searched.compile word)) [
    | inl q ↦ ground (arith, q)
    | inr (search, q) ↦ elim (Option-cases (compile_all searched words)) [
      | inl bad ↦ ground (arith, all_find-bad found words node bad)
      | inr (searches, good) ↦ cc (rw good at (rw q at h))
    ]
  ]

  all_find-good :
      (found : (Text → Bool) → ℕ → Bool) (words : List Text) (node : ℕ)
      (searches : List (Text → Bool))
      → compile_all searched words ≡ some searches
      → all_find (finds found) words node ≡ all_find found searches node
  unfolding compile_all all_find
  all_find-good found [] node searches h = ap (λ l. all_find found l node) (some-injective h)
  all_find-good found (word ∷ words) node searches h =
      let (search, q, e1) = some_steps (searched.compile word) _ h in
      let (rest, q2, e2) = some_steps (compile_all searched words) _ e1 in
      subst (λ l. all_find (finds found) (word ∷ words) node ≡ all_find found l node)
        (some-injective e2) (ground (arith, q, all_find-good found words node rest q2))

  contains-sc :
      (n : ℕ)
      → contains n (sorted_sc_nodes searched)
        ≡ contains n (nodes_of searched.unique_defined_syms ++ nodes_of searched.unique_choices)
  unfolding sorted_sc_nodes
  contains-sc n =
      let syms = nodes_of (sorted name_key searched.unique_defined_syms) in
      let choices = nodes_of (sorted name_key searched.unique_choices) in
      let key = λ (node : ℕ). text_or_empty (searched.prompt node) in
      ground (
        arith,
        contains-append n syms (sorted key choices),
        contains-sorted key n choices,
        nodes_of-sorted n searched.unique_defined_syms,
        nodes_of-sorted n searched.unique_choices,
        contains-append n (nodes_of searched.unique_defined_syms)
            (nodes_of searched.unique_choices),
      )

  contains-menu_comment :
      (n : ℕ)
      → contains n (sorted_menu_comment_nodes searched)
        ≡ contains n (searched.menus ++ searched.comments)
  unfolding sorted_menu_comment_nodes
  contains-menu_comment n =
      let key = λ (node : ℕ). text_or_empty (searched.prompt node) in
      ground (
        arith,
        contains-append n (sorted key searched.menus) (sorted key searched.comments),
        contains-sorted key n searched.menus,
        contains-sorted key n searched.comments,
        contains-append n searched.menus searched.comments,
      )

  -- The matches of a text are the nodes that match it.
  pub contains-matches_of : (s : Text) (n : ℕ) → contains n (matches_of searched s) ≡ is_match s n
  unfolding matches_of is_match contains
  contains-matches_of s n =
      let words = split_words (lower s) in
      let sc = sc_found searched in
      let mc = menu_comment_found searched in
      on_option (λ l. contains n l ≡ is_match s n) (compile_all searched words)
        (λ bad. ground (arith, all_find-bad sc words n bad, all_find-bad mc words n bad))
        (λ searches good. ground (
          arith,
          contains-append n (matching sc searches (sorted_sc_nodes searched))
              (matching mc searches (sorted_menu_comment_nodes searched)),
          contains-matching sc searches n (sorted_sc_nodes searched),
          contains-matching mc searches n (sorted_menu_comment_nodes searched),
          contains-sc n,
          contains-menu_comment n,
          all_find-good sc words n searches good,
          all_find-good mc words n searches good,
        ))
