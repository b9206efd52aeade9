-- ===== src/LfsParser/AndPattern.antt =====
-- What `re.sub` of `\s+and\s+` does to a phrase of words.
use auto_lfs_builder.Prelude.{
  ℕ, ◌≡◌, ◌≢◌, refl, ap, ◌∙◌, [], ◌∷◌, ◌++◌, Bool, true, false, All, arith, nat_eq, list_eq, some,
  none, ◌==◌,
}
use auto_lfs_builder.Text.{Text, codes, is_space}
use auto_lfs_builder.Regex.{sub_from, Pattern, match_at, one, many, some_of}
use auto_lfs_builder.Regex.Skip.{
  match_at-one_some, match_at-many_stop, match_at-nil, match_at-one_none, sub_from-match,
  sub_from-skip, drop_used,
}
use auto_lfs_builder.LfsParser.Dependencies.{and_pattern}

-- No white space inside.
abbrev pub IsWord : Text → Type 0
IsWord w = All (λ c. is_space c ≡ false) w

-- What may stand behind a word without completing an `and`.
abbrev pub Breaks : Text → Type 0
Breaks [] = Unit
Breaks (c ∷ s) = ((c == b'n') ≡ false) × ((c == b'd') ≡ false)

abbrev comma : Text
comma = codes ", "

pub and_flag :
    (first : Bool) (s : Text)
    → sub_from and_pattern comma first 0 s ≡ sub_from and_pattern comma false 0 s
unfolding sub_from match_at and_pattern
and_flag first [] = refl
and_flag first (c ∷ s) = refl

-- A character that is no white space stays.
pub and-char :
    (c : ℕ) (s : Text)
    → is_space c ≡ false
    → sub_from and_pattern comma false 0 (c ∷ s) ≡ c ∷ sub_from and_pattern comma false 0 s
unfolding and_pattern
and-char c s h = sub_from-skip _ false c s comma (match_at-one_none is_space _ false c s h)

pub and-word :
    (w s : Text)
    → IsWord w
    → sub_from and_pattern comma false 0 (w ++ s) ≡ w ++ sub_from and_pattern comma false 0 s
and-word [] s h = refl
and-word (c ∷ w) s h = and-char c (w ++ s) h.0 ∙ ap (λ t. c ∷ t) (and-word w s h.1)

abbrev and_space : Pattern
and_space = one (λ c. c == b'a') ∷ one (λ c. c == b'n') ∷ one (λ c. c == b'd') ∷ some_of is_space

-- Another word than `and` does not begin with one.
no_and :
    (w s : Text)
    → IsWord w
    → w ≢ []
    → w ≢ codes "and"
    → Breaks s
    → match_at and_space false (w ++ s) ≡ none
unfolding match_at
no_and [] s h ne na b = absurd (ne refl)
no_and (x ∷ []) [] h ne na b = ground arith
no_and (x ∷ []) (c ∷ s) h ne na b = ground arith
no_and (x ∷ y ∷ []) [] h ne na b = ground arith
no_and (x ∷ y ∷ []) (c ∷ s) h ne na b = ground arith
no_and (x ∷ y ∷ z ∷ []) s h ne na b = ground arith
no_and (x ∷ y ∷ z ∷ v ∷ w) s h ne na b = ground arith

space_is_space : is_space 0x20 ≡ true
unfolding is_space
space_is_space = refl

letter_a : is_space b'a' ≡ false
unfolding is_space
letter_a = refl

match_at-and_pattern :
    (c : ℕ) (s : Text)
    → is_space c ≡ false
    → match_at and_pattern false (0x20 ∷ c ∷ s) ≡ match_at and_space false (c ∷ s)
unfolding and_pattern
match_at-and_pattern c s h =
    match_at-one_some is_space (many is_space ∷ and_space) false 0x20 (c ∷ s) space_is_space
    ∙ match_at-many_stop is_space and_space false c s h

match_at-and :
    (c : ℕ) (s : Text)
    → is_space c ≡ false
    → match_at and_space false (codes "and " ++ (c ∷ s))
      ≡ some (record { group = []; rest = c ∷ s })
unfolding match_at
match_at-and c s h =
    match_at-one_some is_space (many is_space ∷ []) false 0x20 (c ∷ s) space_is_space
    ∙ (match_at-many_stop is_space [] false c s h ∙ match_at-nil false (c ∷ s))

-- A space in front of another word stays.
pub and-space :
    (w s : Text)
    → IsWord w
    → w ≢ []
    → w ≢ codes "and"
    → Breaks s
    → sub_from and_pattern comma false 0 (0x20 ∷ (w ++ s))
      ≡ 0x20 ∷ sub_from and_pattern comma false 0 (w ++ s)
and-space [] s h ne na b = absurd (ne refl)
and-space (c ∷ w) s h ne na b =
    sub_from-skip and_pattern false 0x20 (c ∷ (w ++ s)) comma
      (match_at-and_pattern c (w ++ s) h.0 ∙ no_and (c ∷ w) s h ne na b)

-- An `and` between a space and a word becomes a comma.
pub and-and :
    (c : ℕ) (s : Text)
    → is_space c ≡ false
    → sub_from and_pattern comma false 0 (codes " and " ++ (c ∷ s))
      ≡ comma ++ sub_from and_pattern comma false 0 (c ∷ s)
and-and c s h =
    sub_from-match and_pattern false 0x20 (codes "and " ++ (c ∷ s)) comma
      (record { group = []; rest = c ∷ s })
      (match_at-and_pattern b'a' (codes "nd " ++ (c ∷ s)) letter_a ∙ match_at-and c s h)
    ∙ ap (λ t. comma ++ sub_from and_pattern comma false 0 t)
        (drop_used (codes "and " ++ (c ∷ s)) (codes "and ") (c ∷ s) refl)
