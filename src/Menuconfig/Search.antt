-- ===== src/Menuconfig/Search.antt =====
-- What the search of menuconfig.py looks through, and what it finds: `_sorted_sc_nodes`,
-- `_sorted_menu_comment_nodes`, and the list of matches.
use auto_lfs_builder.Prelude.{
  ℕ, List, [], ◌∷◌, ◌++◌, Bool, true, false, not, ◌&&◌, ◌||◌, Option, none, some, ltb, nat_eq, ◌==◌,
  if◌then◌else◌,
}
use auto_lfs_builder.Text.{Text, is_nil, lower}
use auto_lfs_builder.KernelConfig.Lines.{split_words}
use auto_lfs_builder.Menuconfig.Navigate.{◌>>=◌}

-- A symbol or a choice: its name, which a choice can lack, and its nodes.
pub record Named : Type 0 where
  pub name : Option Text
  pub nodes : List ℕ

-- What is used of kconfiglib and of `re`: `compile` gives the search of a pattern, or `none` for an
-- error. Each menu and comment has a prompt.
pub record Searched : Type 0 where
  pub unique_defined_syms : List Named
  pub unique_choices : List Named
  pub menus : List ℕ
  pub comments : List ℕ
  -- `node.item.name` and `node.prompt[0]`
  pub name : ℕ → Option Text
  pub prompt : ℕ → Option Text
  pub compile : Text → Option (Text → Bool)

-- The order of texts
unfoldable pub text_leb : Text → Text → Bool
text_leb [] t = true
text_leb (c ∷ s) [] = false
text_leb (c ∷ s) (d ∷ t) = let rest = text_leb s t in if c == d then rest else ltb c d

-- `sorted`, which leaves elements of equal keys in their order
unfoldable pub insert_by {ℓ} : {A : Type ℓ} → (A → Text) → A → List A → List A
unfolding text_leb
insert_by key x [] = x ∷ []
insert_by key x (y ∷ ys) =
    let rest = insert_by key x ys in if text_leb (key x) (key y) then x ∷ y ∷ ys else y ∷ rest

unfoldable pub sorted {ℓ} : {A : Type ℓ} → (A → Text) → List A → List A
unfolding insert_by
sorted key [] = []
sorted key (x ∷ xs) = insert_by key x (sorted key xs)

abbrev pub text_or_empty : Option Text → Text
text_or_empty none = []
text_or_empty (some t) = t

abbrev pub nodes_of : List Named → List ℕ
nodes_of [] = []
nodes_of (sc ∷ scs) = sc.nodes ++ nodes_of scs

abbrev pub name_key : Named → Text
name_key sc = text_or_empty sc.name

-- Whether a search finds something in a name or prompt that is there, in lower case.
unfoldable pub in_name : (Text → Bool) → Option Text → Bool
unfolding lower
in_name search none = false
in_name search (some name) = not (is_nil name) && search (lower name)

unfoldable pub in_prompt : (Text → Bool) → Option Text → Bool
unfolding lower
in_prompt search none = false
in_prompt search (some prompt) = search (lower prompt)

-- The nodes on which no search of a list fails, in their order.
unfoldable pub all_find {ℓ} : {A : Type ℓ} → (A → ℕ → Bool) → List A → ℕ → Bool
all_find finds [] node = true
all_find finds (search ∷ searches) node = finds search node && all_find finds searches node

unfoldable pub matching {ℓ} : {A : Type ℓ} → (A → ℕ → Bool) → List A → List ℕ → List ℕ
unfolding all_find
matching finds searches [] = []
matching finds searches (node ∷ nodes) =
    let rest = matching finds searches nodes in
    if all_find finds searches node then node ∷ rest else rest

module _ (searched : Searched) where
  unfoldable pub sorted_sc_nodes : List ℕ
  unfolding sorted
  sorted_sc_nodes =
      nodes_of (sorted name_key searched.unique_defined_syms)
      ++ sorted (λ node. text_or_empty (searched.prompt node))
          (nodes_of (sorted name_key searched.unique_choices))

  unfoldable pub sorted_menu_comment_nodes : List ℕ
  unfolding sorted
  sorted_menu_comment_nodes =
      sorted (λ node. text_or_empty (searched.prompt node)) searched.menus
      ++ sorted (λ node. text_or_empty (searched.prompt node)) searched.comments

  unfoldable pub sc_found : (Text → Bool) → ℕ → Bool
  unfolding in_name in_prompt
  sc_found search node =
      in_name search (searched.name node) || in_prompt search (searched.prompt node)

  unfoldable pub menu_comment_found : (Text → Bool) → ℕ → Bool
  unfolding in_prompt
  menu_comment_found search node = in_prompt search (searched.prompt node)

  unfoldable pub compile_all : List Text → Option (List (Text → Bool))
  compile_all [] = some []
  compile_all (regex ∷ regexes) = do
    search ← searched.compile regex
    searches ← compile_all regexes
    some (search ∷ searches)

  -- The matches of a search text, none where a pattern is bad.
  unfoldable pub matches_of : Text → List ℕ
  unfolding compile_all split_words lower matching sorted_sc_nodes sorted_menu_comment_nodes
      sc_found menu_comment_found
  matches_of s = elim (compile_all (split_words (lower s))) [
    | none ↦ []
    | some searches ↦
        matching sc_found searches sorted_sc_nodes
        ++ matching menu_comment_found searches sorted_menu_comment_nodes
  ]
