-- ===== src/LfsParser/RoundTrip.antt =====
-- The names of a list of dependencies come back from the words of the book.
use auto_lfs_builder.Prelude.{
  ◌≡◌, refl, ap, ◌∙◌, List, [], ◌∷◌, ◌++◌, All, arith, contains, contains-append, nat_eq, list_eq,
}
use auto_lfs_builder.Text.{Text, codes, strip, split_on}
use auto_lfs_builder.Text.Parts.{Lacks, split_on_front, split_on_whole}
use auto_lfs_builder.LfsParser.Dependencies.{dep_names, parse_deps}
use auto_lfs_builder.LfsParser.Names.{
  IsName, strip-word, strip-space, IsWord-dot, dep_names-name, dep_names-dot, dep_names-blank,
}
use auto_lfs_builder.LfsParser.Phrase.{
  Glue, comma, and, comma_and, phrase, commas, flat, sub-phrase,
}

-- A part between two commas that strips to a name.
record IsPart (p n : Text) : Type 0 where
  name : IsName n
  stripped : strip p ≡ n
  whole : Lacks b',' p

Lacks-append : (s t : Text) → Lacks b',' s → Lacks b',' t → Lacks b',' (s ++ t)
Lacks-append s t h k = ground (arith, contains-append b',' s t)

Lacks-space : (s : Text) → Lacks b',' s → Lacks b',' (0x20 ∷ s)
unfolding contains
Lacks-space s h = h

Lacks-dot : Lacks b',' (codes ".")
unfolding contains
Lacks-dot = refl

first-IsPart : (n : Text) → IsName n → IsPart n n
first-IsPart n h = record { name = h; stripped = strip-word n h.word; whole = h.whole }

next-IsPart : (n : Text) → IsName n → IsPart (0x20 ∷ n) n
next-IsPart n h = record {
  name = h;
  stripped = strip-space n h.word;
  whole = Lacks-space n h.whole;
}

-- The names kept from a text, part by part.
abbrev kept : Text → List Text
kept t = dep_names (split_on b',' t)

kept-front : (p n t : Text) → IsPart p n → kept (p ++ (b',' ∷ t)) ≡ n ∷ kept t
kept-front p n t h =
    ap dep_names (split_on_front b',' p t h.whole)
    ∙ dep_names-name p n (split_on b',' t) h.stripped h.name

kept-blank : (t : Text) → kept (b',' ∷ t) ≡ kept t
unfolding strip
kept-blank t =
    ap dep_names (split_on_front b',' [] t (unfold contains in refl))
    ∙ dep_names-blank [] (split_on b',' t) refl

kept_last : (y : Text) → IsName y → kept (0x20 ∷ (y ++ codes ".")) ≡ y ∷ []
kept_last y h =
    ap dep_names (
      split_on_whole b',' (0x20 ∷ (y ++ codes "."))
        (Lacks-space (y ++ codes ".") (Lacks-append y (codes ".") h.whole Lacks-dot)))
    ∙ (dep_names-dot (0x20 ∷ (y ++ codes ".")) y []
          (strip-space (y ++ codes ".") (IsWord-dot y h.word)) h
        ∙ unfold dep_names in refl)

kept-flat :
    (p n : Text) (g : Glue) (y : Text)
    → IsPart p n
    → IsName y
    → kept (p ++ (flat g ++ (y ++ codes "."))) ≡ n ∷ y ∷ []
kept-flat p n comma y h k =
    kept-front p n (0x20 ∷ (y ++ codes ".")) h ∙ ap (λ z. n ∷ z) (kept_last y k)
kept-flat p n and y h k =
    kept-front p n (0x20 ∷ (y ++ codes ".")) h ∙ ap (λ z. n ∷ z) (kept_last y k)
kept-flat p n comma_and y h k =
    kept-front p n (b',' ∷ 0x20 ∷ (y ++ codes ".")) h
    ∙ ap (λ z. n ∷ z) (kept-blank (0x20 ∷ (y ++ codes ".")) ∙ kept_last y k)

kept-commas :
    (p n : Text) (xs : List Text) (g : Glue) (y : Text)
    → IsPart p n
    → All IsName xs
    → IsName y
    → kept (p ++ commas xs (flat g ++ (y ++ codes "."))) ≡ n ∷ (xs ++ y ∷ [])
unfolding commas
kept-commas p n [] g y h hs k = kept-flat p n g y h k
kept-commas p n (x ∷ xs) g y h hs k =
    kept-front p n (0x20 ∷ (x ++ commas xs (flat g ++ (y ++ codes ".")))) h
    ∙ ap (λ z. n ∷ z) (kept-commas (0x20 ∷ x) x xs g y (next-IsPart x hs.0) hs.1 k)

-- Names of one word that are written as `a, b and c.`, as `a, b, c.` or as `a, b, and c.` are read
-- back in their order, if none of them holds a comma, ends with a full stop, is `and` or is `none`.
pub parse_deps-phrase :
    (first : Text) (names : List Text) (g : Glue) (last : Text)
    → IsName first
    → All IsName names
    → IsName last
    → parse_deps (phrase first names g last) ≡ first ∷ (names ++ last ∷ [])
unfolding parse_deps
parse_deps-phrase first names g last h hs k =
    ap kept (sub-phrase first names g last h hs k)
    ∙ kept-commas first first names g last (first-IsPart first h) hs k
