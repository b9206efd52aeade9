-- ===== src/Menuconfig/Chosen.antt =====
-- Enter in the search dialog of menuconfig.py jumps to a node that matches.
use auto_lfs_builder.Prelude.{
  ℕ, ◌≡◌, refl, ap, ◌∙◌, subst, List, [], ◌∷◌, ◌++◌, true, Option, nat_eq, contains,
}
use auto_lfs_builder.Menuconfig.Edit.{Key, char}
use auto_lfs_builder.Menuconfig.Search.{Searched}
use auto_lfs_builder.Menuconfig.JumpDialog.{
  Search, Found, searching, found, given_up, index_error, Screen, search_char, search_key,
  search_keys, first_search, jump_to_dialog,
}
use auto_lfs_builder.Menuconfig.Matching.{is_match, contains-matches_of}
use auto_lfs_builder.Menuconfig.Listed.{IsListed}
use auto_lfs_builder.Menuconfig.Searching.{IsSound, entered-match, jump_to_dialog-IsSound}

module _ (searched : Searched) where
  search_keys-++ :
      (erase : Option ℕ) (keys more : List (Key × Screen)) (s t : Search)
      → search_keys searched erase keys s ≡ searching t
      → search_keys searched erase (keys ++ more) s ≡ search_keys searched erase more t
  unfolding search_keys
  search_keys-++ erase [] more s t e = ap (search_keys searched erase more) (searching-injective e)
    where
      text_of : Search → Found → Search
      text_of d (searching s) = s
      text_of d _ = d

      searching-injective : {a b : Search} → searching a ≡ searching b → a ≡ b
      searching-injective q = ap (text_of s) q
  search_keys-++ erase ((c, screen) ∷ keys) more s t e =
      after (search_key searched erase c screen s) (search_keys-++ erase keys more) e
    where
      after :
          (q : Found)
          → ((s t : Search)
              → search_keys searched erase keys s ≡ searching t
              → search_keys searched erase (keys ++ more) s ≡ search_keys searched erase more t)
          → (elim q [
            | searching s' ↦ search_keys searched erase keys s'
            | found node ↦ found node
            | given_up ↦ given_up
            | index_error ↦ index_error
          ])
            ≡ searching t
          → (elim q [
            | searching s' ↦ search_keys searched erase (keys ++ more) s'
            | found node ↦ found node
            | given_up ↦ given_up
            | index_error ↦ index_error
          ])
            ≡ search_keys searched erase more t
      after (searching s') rest h = rest s' t h
      after (found node) rest h = cc h
      after given_up rest h = cc h
      after index_error rest h = cc h

  Chosen : Option ℕ → Screen → Search → Type 0
  Chosen erase screen s =
      (chosen : ℕ) × (search_char searched erase 0x0a screen s ≡ found chosen)
      × (is_match searched s.box.s chosen ≡ true)

  enter-Chosen :
      (erase : Option ℕ) (screen : Screen) (s : Search) (node : ℕ)
      → IsListed searched s
      → contains node s.matches ≡ true
      → Chosen erase screen s
  unfolding search_char Chosen contains
  enter-Chosen erase screen s node h m = by_matches s.matches refl m
    where
      by_matches : (l : List ℕ) → s.matches ≡ l → contains node l ≡ true → Chosen erase screen s
      by_matches [] e q = cc q
      by_matches (first ∷ rest) e q =
          let (chosen, at, match) = entered-match searched s first rest h e in
          (chosen, rw (e, at) refl, match)

  -- After any keys after which the search dialog is open, if a node matches each word of its text, Enter
  -- ends it with a node that does.
  pub jump_to_dialog-Chosen :
      (erase : Option ℕ) (screen_height : ℕ) (keys : List (Key × Screen)) (screen : Screen)
      (s : Search) (node : ℕ)
      → jump_to_dialog searched erase screen_height keys ≡ searching s
      → is_match searched s.box.s node ≡ true
      → (chosen : ℕ) × (jump_to_dialog searched erase screen_height
            (keys ++ (char 0x0a, screen) ∷ [])
          ≡ found chosen)
        × (is_match searched s.box.s chosen ≡ true)
  unfolding jump_to_dialog IsSound search_keys search_key Chosen
  jump_to_dialog-Chosen erase screen_height keys screen s node still_open match =
      let listed : IsListed searched s =
        subst (IsSound searched) still_open
          (jump_to_dialog-IsSound searched erase screen_height keys) in
      let (chosen, e, good) =
        enter-Chosen erase screen s node listed
          (ap (contains node) listed.listed ∙ contains-matches_of searched s.box.s node ∙ match) in
      (
        chosen,
        search_keys-++ erase keys ((char 0x0a, screen) ∷ []) (first_search searched screen_height) s
              still_open
            ∙ rw e refl,
        good,
      )
