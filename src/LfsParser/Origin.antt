-- ===== src/LfsParser/Origin.antt =====
-- Every command of the branch without BeautifulSoup comes from an element of the chapter.
use auto_lfs_builder.Prelude.{
  ◌≡◌, nat_eq, refl, sym, List, [], ◌∷◌, ◌++◌, append_assoc, append-nil, true, All, if◌then◌else◌,
  Bool-cases, inl, inr, ◌⊎◌,
}
use auto_lfs_builder.Text.{Text, codes, lower}
use auto_lfs_builder.Regex.{find_all, Pattern, letters}
use auto_lfs_builder.Regex.Laziness.{Excludes, EndsLazily, match_at-IsShort, find_all_from-All}
use auto_lfs_builder.Regex.Spelling.{Spells}
use auto_lfs_builder.Regex.Places.{Found, find_all_from-Found}
use auto_lfs_builder.LfsParser.Commands.{
  clean_command, is_build_command, pre_pattern, userinput_pattern, collect, regex_commands,
}
use auto_lfs_builder.LfsParser.Extract.{IsElement, HasClass, userinput-IsElement, pre-IsElement}

-- The blocks that become commands, in their order.
unfoldable pub builds : List Text → List Text
builds [] = []
builds (block ∷ blocks) =
    let rest = builds blocks in
    if is_build_command (clean_command block) then clean_command block ∷ rest else rest

-- The loop appends them.
pub collect-builds :
    (commands blocks : List Text) → collect commands blocks ≡ commands ++ builds blocks
unfolding collect builds
collect-builds commands [] = sym (append-nil commands)
collect-builds commands (block ∷ blocks) =
    elim (Bool-cases (is_build_command (clean_command block))) [
      | inl h ↦
          rw (h, collect-builds (commands ++ clean_command block ∷ []) blocks)
            (append_assoc commands (clean_command block ∷ []) (builds blocks))
      | inr h ↦ rw h (collect-builds commands blocks)
    ]

-- Elements whose content is a block: `userinput`, and `pre` of the class userinput.
abbrev pub IsBlock : Text → Text → Text → Type 0
IsBlock tag whole content =
    (e : IsElement tag whole content) × ((tag ≡ codes "userinput")
      ⊎ ((tag ≡ codes "pre") × HasClass e.attributes))

-- The closing tag.
abbrev pub close_of : Text → Text
close_of tag = codes "</" ++ (tag ++ codes ">")

-- A command is the cleaned content of an element of the text, up to the nearest closing tag, and
-- passes the test.
pub record Origin (text cmd : Text) : Type 0 where
  pub tag : Text
  pub before : Text
  pub whole : Text
  pub after : Text
  pub content : Text
  pub place : text ≡ before ++ (whole ++ after)
  pub is_block : IsBlock tag whole content
  pub nearest : Excludes (close_of tag) (lower content)
  pub cleaned : cmd ≡ clean_command content
  pub builds : is_build_command cmd ≡ true

builds-All :
    (P : Text → Type 0) (blocks : List Text)
    → All (λ b. is_build_command (clean_command b) ≡ true → P (clean_command b)) blocks
    → All P (builds blocks)
unfolding builds
builds-All P [] h = tt
builds-All P (b ∷ blocks) h = elim (Bool-cases (is_build_command (clean_command b))) [
  | inl q ↦ rw q (h.0 q, builds-All P blocks h.1)
  | inr q ↦ rw q (builds-All P blocks h.1)
]

All-implies :
    (P Q : Text → Type 0) (xs : List Text) → ((x : Text) → P x → Q x) → All P xs → All Q xs
All-implies P Q [] f h = tt
All-implies P Q (x ∷ xs) f h = (f x h.0, All-implies P Q xs f h.1)

All-append : (P : Text → Type 0) (xs ys : List Text) → All P xs → All P ys → All P (xs ++ ys)
All-append P [] ys h k = k
All-append P (x ∷ xs) ys h k = (h.0, All-append P xs ys h.1 k)

All-both : (P Q : Text → Type 0) (xs : List Text) → All P xs → All Q xs → All (λ x. P x × Q x) xs
All-both P Q [] h k = tt
All-both P Q (x ∷ xs) h k = ((h.0, k.0), All-both P Q xs h.1 k.1)

find_all-Origin :
    (r : Pattern) (tag text : Text)
    → ((t g : Text) → Spells r t g → IsBlock tag t g)
    → EndsLazily (close_of tag) r
    → All (Origin text) (builds (find_all r text))
unfolding find_all
find_all-Origin r tag text block lazy = builds-All (Origin text) (find_all r text) (
    All-implies (λ b. Found r text b × Excludes (close_of tag) (lower b))
      (λ b. is_build_command (clean_command b) ≡ true → Origin text (clean_command b))
      (find_all r text)
      (λ b (f, nearest) builds. record {
        tag = tag;
        before = f.before;
        whole = f.used;
        after = f.after;
        content = b;
        place = f.split;
        is_block = block f.used b f.spelled;
        nearest = nearest;
        cleaned = refl;
        builds = builds;
      })
      (All-both (Found r text) (λ b. Excludes (close_of tag) (lower b)) (find_all r text)
        (find_all_from-Found r true 0 text)
        (find_all_from-All (λ b. Excludes (close_of tag) (lower b)) r
          (λ first s. match_at-IsShort b'<' (b'/' ∷ (tag ++ codes ">")) r first s lazy) true 0
          text)))

-- Every command that is extracted without BeautifulSoup is the cleaned content of an element of the
-- chapter, from the first `>` behind the name of its tag to the nearest closing tag of that name, the element a
-- `<userinput>`, or a `<pre>` with class='userinput' among its attributes; and it is a build command.
pub regex_commands-Origin : (text : Text) → All (Origin text) (regex_commands text)
unfolding regex_commands pre_pattern userinput_pattern letters
regex_commands-Origin text =
    rw
      (
        collect-builds [] (find_all pre_pattern text),
        collect-builds (builds (find_all pre_pattern text)) (find_all userinput_pattern text),
      )
      (All-append (Origin text) (builds (find_all pre_pattern text))
        (builds (find_all userinput_pattern text))
        (find_all-Origin pre_pattern (codes "pre") text
          (λ t g s. let (e, classed) = pre-IsElement s in (e, inr (refl, classed))) refl)
        (find_all-Origin userinput_pattern (codes "userinput") text
          (λ t g s. (userinput-IsElement s, inl refl)) refl))
