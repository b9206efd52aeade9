-- ===== src/LfsParser/Lines.antt =====
-- What `clean_command` does with the lines of a command.
use auto_lfs_builder.Prelude.{
  ℕ, ◌≡◌, refl, List, [], ◌∷◌, map, Bool, false, ◌&&◌, ◌||◌, All, nat_eq, list_eq, ◌==◌, Bool-cases,
  List-cases, inl, inr,
}
use auto_lfs_builder.Text.{
  Text, is_nil, is_space, strip, splitlines, split_on, join, lstrip_by, rstrip_by, is_line_break,
}
use auto_lfs_builder.Text.Trim.{IsTrimmed}
use auto_lfs_builder.Text.Parts.{Lacks, IsLine, split_on-join, splitlines-IsLine, IsLine-Lacks}
use auto_lfs_builder.LfsParser.Commands.{clean_line, clean_command}
use auto_lfs_builder.LfsParser.Clean.{drop_prompt, clean_line-drop_prompt, clean_line-IsTrimmed}

module _ (P : ℕ → Type 0) (p : ℕ → Bool) where
  lstrip_by-All : (s : Text) → All P s → All P (lstrip_by p s)
  unfolding lstrip_by
  lstrip_by-All [] h = tt
  lstrip_by-All (c ∷ s) h = elim (Bool-cases (p c)) [
    | inl q ↦ rw q (lstrip_by-All s h.1)
    | inr q ↦ rw q h
  ]

  rstrip_by-All : (s : Text) → All P s → All P (rstrip_by p s)
  unfolding rstrip_by
  rstrip_by-All [] h = tt
  rstrip_by-All (c ∷ s) h = elim (Bool-cases (is_nil (rstrip_by p s) && p c)) [
    | inl q ↦ rw q tt
    | inr q ↦ rw q (h.0, rstrip_by-All s h.1)
  ]

drop_prompt-IsLine : (s : Text) → IsLine s → IsLine (drop_prompt s)
drop_prompt-IsLine [] h = tt
drop_prompt-IsLine (c ∷ s) h = elim (Bool-cases (c == b'#' || c == b'$')) [
  | inl q ↦ rw q (lstrip_by-All (λ d. is_line_break d ≡ false) is_space s h.1)
  | inr q ↦ rw q h
]

clean_line-IsLine : (line : Text) → IsLine line → IsLine (clean_line line)
clean_line-IsLine line h =
    rw (clean_line-drop_prompt line) (drop_prompt-IsLine (strip line) stripped)
  where
    stripped : IsLine (strip line)
    stripped =
        unfold strip in
        rstrip_by-All (λ d. is_line_break d ≡ false) is_space (lstrip_by is_space line)
          (lstrip_by-All (λ d. is_line_break d ≡ false) is_space line h)

clean_lines-IsTrimmed : (lines : List Text) → All IsTrimmed (map clean_line lines)
clean_lines-IsTrimmed [] = tt
clean_lines-IsTrimmed (l ∷ lines) = (clean_line-IsTrimmed l, clean_lines-IsTrimmed lines)

clean_lines-Lacks : (lines : List Text) → All IsLine lines → All (Lacks 0xa) (map clean_line lines)
clean_lines-Lacks [] h = tt
clean_lines-Lacks (l ∷ lines) h =
    (IsLine-Lacks (clean_line l) (clean_line-IsLine l h.0), clean_lines-Lacks lines h.1)

-- No line of a cleaned command begins or ends with white space.
pub clean_command-IsTrimmed : (text : Text) → All IsTrimmed (split_on 0xa (clean_command text))
unfolding clean_command
clean_command-IsTrimmed text = elim (List-cases (map clean_line (splitlines (strip text)))) [
  | inl empty ↦ rw (empty, join) (unfold split_on strip in (refl, tt))
  | inr (l, ls, e) ↦
      rw
        (split_on-join 0xa (map clean_line (splitlines (strip text))) (λ z. cc)
          (clean_lines-Lacks (splitlines (strip text)) (splitlines-IsLine (strip text))))
        (clean_lines-IsTrimmed (splitlines (strip text)))
]
