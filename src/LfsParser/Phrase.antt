-- ===== src/LfsParser/Phrase.antt =====
-- A list of dependencies in the words of the book, through `parse_deps`.
use auto_lfs_builder.Prelude.{
  ◌≡◌, ◌≢◌, refl, ap, ◌∙◌, List, [], ◌∷◌, ◌++◌, append_assoc, true, false, All, nat_eq, list_eq,
}
use auto_lfs_builder.Text.{Text, codes, is_space, join}
use auto_lfs_builder.Regex.{sub, sub_from}
use auto_lfs_builder.LfsParser.Dependencies.{and_pattern}
use auto_lfs_builder.LfsParser.AndPattern.{
  IsWord, Breaks, and_flag, and-char, and-word, and-space, and-and,
}
use auto_lfs_builder.LfsParser.Names.{IsName}

-- What stands in front of the last name.
pub data Glue : Type 0 where
  comma and comma_and : Glue

unfoldable pub glue : Glue → Text
glue comma = codes ", "
glue and = codes " and "
glue comma_and = codes ", and "

-- `a, b and c.`
unfoldable pub phrase : Text → List Text → Glue → Text → Text
unfolding glue join
phrase first names g last = join (codes ", ") (first ∷ names) ++ (glue g ++ (last ++ codes "."))

-- Each name behind a comma, in front of what follows.
unfoldable pub commas : List Text → Text → Text
commas [] t = t
commas (x ∷ xs) t = codes ", " ++ (x ++ commas xs t)

join-commas :
    (x : Text) (xs : List Text) (t : Text) → join (codes ", ") (x ∷ xs) ++ t ≡ x ++ commas xs t
unfolding join commas
join-commas x [] t = refl
join-commas x (y ∷ xs) t =
    append_assoc x (codes ", " ++ join (codes ", ") (y ∷ xs)) t
    ∙ ap (λ z. x ++ (codes ", " ++ z)) (join-commas y xs t)

abbrev substituted : Text → Text
substituted = sub_from and_pattern (codes ", ") false 0

Breaks-commas : (xs : List Text) (t : Text) → Breaks t → Breaks (commas xs t)
unfolding commas
Breaks-commas [] t h = h
Breaks-commas (x ∷ xs) t h = (refl, refl)

comma_is_no_space : is_space b',' ≡ false
unfolding is_space
comma_is_no_space = refl

dot_is_no_space : is_space b'.' ≡ false
unfolding is_space
dot_is_no_space = refl

-- A comma, a space and a name stay.
substituted-item :
    (x s : Text)
    → IsName x
    → Breaks s
    → substituted (codes ", " ++ (x ++ s)) ≡ codes ", " ++ (x ++ substituted s)
substituted-item x s h b =
    and-char b',' (0x20 ∷ (x ++ s)) comma_is_no_space
    ∙ ap (λ z. b',' ∷ z)
        (and-space x s h.word h.filled h.not_and b ∙ ap (λ z. 0x20 ∷ z) (and-word x s h.word))

substituted-commas :
    (xs : List Text) (t : Text)
    → All IsName xs
    → Breaks t
    → substituted (commas xs t) ≡ commas xs (substituted t)
unfolding commas
substituted-commas [] t h b = refl
substituted-commas (x ∷ xs) t h b =
    substituted-item x (commas xs t) h.0 (Breaks-commas xs t b)
    ∙ ap (λ z. codes ", " ++ (x ++ z)) (substituted-commas xs t h.1 b)

substituted-dot : substituted (codes ".") ≡ codes "."
unfolding sub_from
substituted-dot = and-char b'.' [] dot_is_no_space

-- What the substitution leaves of the glue.
abbrev pub flat : Glue → Text
flat comma = codes ", "
flat and = codes ", "
flat comma_and = codes ",, "

and-last :
    (y : Text)
    → IsName y
    → substituted (codes " and " ++ (y ++ codes ".")) ≡ codes ", " ++ (y ++ codes ".")
and-last y h =
    by_letter y h.filled h.word
    ∙ ap (λ z. codes ", " ++ z) (and-word y (codes ".") h.word ∙ ap (λ z. y ++ z) substituted-dot)
  where
    by_letter :
        (w : Text)
        → w ≢ []
        → IsWord w
        → substituted (codes " and " ++ (w ++ codes "."))
          ≡ codes ", " ++ substituted (w ++ codes ".")
    by_letter [] ne k = absurd (ne refl)
    by_letter (c ∷ w) ne k = and-and c (w ++ codes ".") k.0

substituted-glue :
    (g : Glue) (y : Text)
    → IsName y
    → substituted (glue g ++ (y ++ codes ".")) ≡ flat g ++ (y ++ codes ".")
unfolding glue
substituted-glue comma y h =
    substituted-item y (codes ".") h (refl, refl) ∙ ap (λ z. codes ", " ++ (y ++ z)) substituted-dot
substituted-glue and y h = and-last y h
substituted-glue comma_and y h =
    and-char b',' (codes " and " ++ (y ++ codes ".")) comma_is_no_space
    ∙ ap (λ z. b',' ∷ z) (and-last y h)

Breaks-glue : (g : Glue) (s : Text) → Breaks (glue g ++ s)
unfolding glue
Breaks-glue comma s = (refl, refl)
Breaks-glue and s = (refl, refl)
Breaks-glue comma_and s = (refl, refl)

pub sub-phrase :
    (x : Text) (xs : List Text) (g : Glue) (y : Text)
    → IsName x
    → All IsName xs
    → IsName y
    → sub and_pattern (codes ", ") (phrase x xs g y) ≡ x ++ commas xs (flat g ++ (y ++ codes "."))
unfolding sub phrase
sub-phrase x xs g y hx hxs hy =
    let tail = glue g ++ (y ++ codes ".") in
    and_flag true (join (codes ", ") (x ∷ xs) ++ tail)
    ∙ (ap substituted (join-commas x xs tail)
        ∙ (and-word x (commas xs tail) hx.word
            ∙ ap (λ z. x ++ z)
                (substituted-commas xs tail hxs (Breaks-glue g (y ++ codes "."))
                  ∙ ap (commas xs) (substituted-glue g y hy))))
