-- ===== src/LfsParser/Clean.antt =====
-- What `clean_line` returns.
use auto_lfs_builder.Prelude.{
  ℕ, ◌≡◌, refl, ap, ◌∙◌, [], ◌∷◌, Bool, true, false, ◌||◌, length, ◌-◌, nat_eq, list_eq, ◌==◌,
  if◌then◌else◌, Bool-cases, inl, inr, drop, some, none,
}
use auto_lfs_builder.Text.{Text, is_space, strip, lstrip_by}
use auto_lfs_builder.Text.Trim.{IsTrimmed, strip_idem, lstrip-tail-IsTrimmed}
use auto_lfs_builder.Regex.{sub, sub_from, match_at, one, many}
use auto_lfs_builder.Regex.Skip.{
  sub_from-match, sub_from-skip, sub_from-at_start, drop-lstrip_by, match_at-many,
}
use auto_lfs_builder.LfsParser.Commands.{prompt_pattern, clean_line}

abbrev is_prompt : ℕ → Bool
is_prompt c = c == b'#' || c == b'$'

-- The substitution without a pattern.
abbrev pub drop_prompt : Text → Text
drop_prompt [] = []
drop_prompt (c ∷ s) = if is_prompt c then lstrip_by is_space s else c ∷ s

match_at-prompt_pattern :
    (c : ℕ) (s : Text)
    → match_at prompt_pattern true (c ∷ s)
      ≡ (if is_prompt c then some (record { group = []; rest = lstrip_by is_space s }) else none)
unfolding prompt_pattern match_at
match_at-prompt_pattern c s =
    ap (λ m. if is_prompt c then m else none) (match_at-many is_space false s)

sub_from-prompt_pattern : (s : Text) → sub_from prompt_pattern [] false 0 s ≡ s
unfolding prompt_pattern
sub_from-prompt_pattern s = sub_from-at_start (one is_prompt ∷ many is_space ∷ []) [] s

-- Only the start of the line is substituted.
pub sub-prompt_pattern : (s : Text) → sub prompt_pattern [] s ≡ drop_prompt s
unfolding sub prompt_pattern
sub-prompt_pattern [] = refl
sub-prompt_pattern (c ∷ s) =
    let found = match_at-prompt_pattern c s in
    elim (Bool-cases (is_prompt c)) [
      | inl h ↦
          sub_from-match prompt_pattern true c s []
            (record { group = []; rest = lstrip_by is_space s }) (found ∙ rw h)
          ∙ sub_from-prompt_pattern (drop (length s - length (lstrip_by is_space s)) s)
          ∙ (drop-lstrip_by is_space s ∙ rw h)
      | inr h ↦
          sub_from-skip prompt_pattern true c s [] (found ∙ rw h)
          ∙ (ap (λ t. c ∷ t) (sub_from-prompt_pattern s) ∙ rw h)
    ]

drop_prompt-IsTrimmed : (s : Text) → IsTrimmed s → IsTrimmed (drop_prompt s)
drop_prompt-IsTrimmed [] h = h
drop_prompt-IsTrimmed (c ∷ s) h = elim (Bool-cases (is_prompt c)) [
  | inl p ↦ rw p (lstrip-tail-IsTrimmed c s h)
  | inr p ↦ rw p h
]

pub clean_line-drop_prompt : (line : Text) → clean_line line ≡ drop_prompt (strip line)
unfolding clean_line
clean_line-drop_prompt line = sub-prompt_pattern (strip line)

pub clean_line-IsTrimmed : (line : Text) → IsTrimmed (clean_line line)
clean_line-IsTrimmed line =
    rw (clean_line-drop_prompt line) (drop_prompt-IsTrimmed (strip line) (strip_idem line))
