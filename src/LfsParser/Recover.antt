-- ===== src/LfsParser/Recover.antt =====
-- A chapter of plain text and `<userinput>` blocks: every block is recovered, in order.
use auto_lfs_builder.Prelude.{
  ℕ, ◌≡◌, refl, sym, ap, ◌∙◌, subst, List, [], ◌∷◌, ◌++◌, append_assoc, append-nil, Bool, true,
  false, arith, map, contains, nat_eq, list_eq, some, ◌==◌,
}
use auto_lfs_builder.Text.{Text, codes, lower_char}
use auto_lfs_builder.Text.Parts.{Lacks}
use auto_lfs_builder.Regex.{
  find_all, find_all_from, Pattern, match_at, grow_group, one, capture, any_char, letters,
  same_letter,
}
use auto_lfs_builder.Regex.Skip.{
  match_at-capture, match_at-one_none, find_all_from-match, find_all_from-skip, drop_used,
}
use auto_lfs_builder.LfsParser.Commands.{pre_pattern, userinput_pattern, regex_commands}
use auto_lfs_builder.LfsParser.Origin.{builds, collect-builds}

-- Text, and the block behind it.
pub record Piece : Type 0 where
  pub prose : Text
  pub block : Text

abbrev opening : Text
opening = codes "<userinput>"

abbrev closing : Text
closing = codes "</userinput>"

unfoldable pub render : List Piece → Text → Text
render [] tail = tail
render (p ∷ ps) tail = p.prose ++ (opening ++ (p.block ++ (closing ++ render ps tail)))

-- No other markup.
abbrev pub IsPlain : List Piece → Text → Type 0
IsPlain [] tail = Lacks b'<' tail
IsPlain (p ∷ ps) tail = Lacks b'<' p.prose × Lacks b'<' p.block × IsPlain ps tail

not_open : (c : ℕ) → (b'<' == c) ≡ false → same_letter b'<' c ≡ false
unfolding lower_char
not_open c h = ground arith

-- A pattern that begins with `<` passes over text without it.
find_all-plain :
    (r : Pattern) (found : List Text) (t rest : Text)
    → Lacks b'<' t
    → ((first : Bool) → find_all_from (one (same_letter b'<') ∷ r) first 0 rest ≡ found)
    → (first : Bool) → find_all_from (one (same_letter b'<') ∷ r) first 0 (t ++ rest) ≡ found
unfolding contains
find_all-plain r found [] rest h k first = k first
find_all-plain r found (c ∷ t) rest h k first =
    find_all_from-skip (one (same_letter b'<') ∷ r) first c (t ++ rest)
      (match_at-one_none (same_letter b'<') r first c (t ++ rest) (not_open c (ground arith)))
    ∙ find_all-plain r found t rest (ground arith) k false

capture-block :
    (b rest : Text)
    → Lacks b'<' b
    → match_at (capture any_char ∷ letters closing) false (b ++ (closing ++ rest))
      ≡ some (record { group = b; rest = rest })
unfolding contains match_at letters
capture-block [] rest h = refl
capture-block (c ∷ b) rest h =
    match_at-capture any_char (letters closing) false c (b ++ (closing ++ rest))
      (match_at-one_none (same_letter b'<') (letters (codes "/userinput>")) false c
        (b ++ (closing ++ rest)) (not_open c (ground arith)))
      refl
    ∙ ap (grow_group c) (capture-block b rest (ground arith))

match-userinput :
    (first : Bool) (b rest : Text)
    → Lacks b'<' b
    → match_at userinput_pattern first (opening ++ (b ++ (closing ++ rest)))
      ≡ some (record { group = b; rest = rest })
unfolding userinput_pattern match_at
match-userinput first b rest h = capture-block b rest h

-- The elements of the two patterns behind plain text.
userinput-plain :
    (found : List Text) (t rest : Text)
    → Lacks b'<' t
    → ((first : Bool) → find_all_from userinput_pattern first 0 rest ≡ found)
    → (first : Bool) → find_all_from userinput_pattern first 0 (t ++ rest) ≡ found
unfolding userinput_pattern
userinput-plain found t rest h k first = find_all-plain _ found t rest h k first

pre-plain :
    (t rest : Text)
    → Lacks b'<' t
    → ((first : Bool) → find_all_from pre_pattern first 0 rest ≡ [])
    → (first : Bool) → find_all_from pre_pattern first 0 (t ++ rest) ≡ []
unfolding pre_pattern
pre-plain t rest h k first = find_all-plain _ [] t rest h k first

userinput-block :
    (b rest : Text)
    → Lacks b'<' b
    → (first : Bool)
    → find_all_from userinput_pattern first 0 (opening ++ (b ++ (closing ++ rest)))
      ≡ b ∷ find_all_from userinput_pattern false 0 rest
userinput-block b rest h first =
    let used = codes "userinput>" ++ (b ++ closing) in
    find_all_from-match userinput_pattern first b'<'
      (codes "userinput>" ++ (b ++ (closing ++ rest))) (record { group = b; rest = rest })
      (match-userinput first b rest h)
    ∙ ap (λ t. b ∷ find_all_from userinput_pattern false 0 t)
        (drop_used (codes "userinput>" ++ (b ++ (closing ++ rest))) used rest
          (ap (λ t. codes "userinput>" ++ t) (sym (append_assoc b closing rest))))

-- `<userinput>` and `</userinput>` are no `<pre>`.
pre-opening :
    (first : Bool) (s : Text)
    → find_all_from pre_pattern first 0 (opening ++ s) ≡ find_all_from pre_pattern false 0 s
unfolding find_all_from pre_pattern match_at
pre-opening first s = refl

pre-closing :
    (first : Bool) (s : Text)
    → find_all_from pre_pattern first 0 (closing ++ s) ≡ find_all_from pre_pattern false 0 s
unfolding find_all_from pre_pattern match_at
pre-closing first s = refl

find_all_from-nil : (r : Pattern) (first : Bool) → find_all_from r first 0 [] ≡ []
unfolding find_all_from
find_all_from-nil r first = refl

find_all-userinput :
    (ps : List Piece) (tail : Text)
    → IsPlain ps tail
    → (first : Bool)
    → find_all_from userinput_pattern first 0 (render ps tail) ≡ map (λ p. p.block) ps
unfolding render
find_all-userinput [] tail h first =
    subst (λ (t : Text). find_all_from userinput_pattern first 0 t ≡ []) (append-nil tail)
      (userinput-plain [] tail [] h (find_all_from-nil userinput_pattern) first)
find_all-userinput (p ∷ ps) tail h first =
    let rest = find_all-userinput ps tail h.2 false in
    userinput-plain (map (λ p. p.block) (p ∷ ps)) p.prose
      (opening ++ (p.block ++ (closing ++ render ps tail))) h.0
      (λ f. userinput-block p.block (render ps tail) h.1 f ∙ ap (λ t. p.block ∷ t) rest) first

find_all-pre :
    (ps : List Piece) (tail : Text)
    → IsPlain ps tail
    → (first : Bool) → find_all_from pre_pattern first 0 (render ps tail) ≡ []
unfolding render
find_all-pre [] tail h first =
    subst (λ (t : Text). find_all_from pre_pattern first 0 t ≡ []) (append-nil tail)
      (pre-plain tail [] h (find_all_from-nil pre_pattern) first)
find_all-pre (p ∷ ps) tail h first =
    let rest = find_all-pre ps tail h.2 in
    pre-plain p.prose (opening ++ (p.block ++ (closing ++ render ps tail))) h.0
      (λ f.
        pre-opening f (p.block ++ (closing ++ render ps tail))
        ∙ pre-plain p.block (closing ++ render ps tail) h.1
            (λ f'. pre-closing f' (render ps tail) ∙ rest false) false)
      first

-- From a chapter of plain text and `<userinput>` blocks that hold no other markup, exactly the
-- cleaned blocks that are build commands are extracted, in the order of the chapter.
pub regex_commands-render :
    (ps : List Piece) (tail : Text)
    → IsPlain ps tail
    → regex_commands (render ps tail) ≡ builds (map (λ p. p.block) ps)
unfolding regex_commands find_all builds
regex_commands-render ps tail h =
    rw (find_all-pre ps tail h true, find_all-userinput ps tail h true)
      (collect-builds [] (map (λ p. p.block) ps))
