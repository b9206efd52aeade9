-- ===== src/LfsParser/Transcript.antt =====
-- A shell transcript, with a prompt in front of some lines, through `clean_command`.
use auto_lfs_builder.Prelude.{
  ℕ, ◌≡◌, ◌≢◌, refl, ap, ◌∙◌, List, [], ◌∷◌, ◌++◌, map, false, not, All, nat_eq, list_eq, arith,
}
use auto_lfs_builder.Text.{
  Text, codes, is_space, strip, splitlines, join, starts_with, lstrip_by, is_line_break,
}
use auto_lfs_builder.Text.Trim.{IsTrimmed, IsTrimmed-rstrip}
use auto_lfs_builder.Text.Parts.{IsLine}
use auto_lfs_builder.Text.Lines.{
  EndsFilled, splitlines-join, rstrip_by-append, IsTrimmed-head, join-IsTrimmed,
}
use auto_lfs_builder.LfsParser.Commands.{clean_line, clean_command, is_build_command}
use auto_lfs_builder.LfsParser.Clean.{drop_prompt, clean_line-drop_prompt}

-- A line behind no prompt, behind the prompt of root, and behind that of another user.
pub data Entry : Type 0 where
  bare root user : Text → Entry

unfoldable pub written : Entry → Text
written (bare l) = l
written (root l) = codes "# " ++ l
written (user l) = codes "$ " ++ l

unfoldable pub line : Entry → Text
line (bare l) = l
line (root l) = l
line (user l) = l

abbrev pub Unprompted : Text → Type 0
Unprompted s = (starts_with (codes "#") s ≡ false) × (starts_with (codes "$") s ≡ false)

-- One trimmed line. Without a prompt it begins with no prompt sign, and with one it is not blank.
abbrev pub IsEntry : Entry → Type 0
IsEntry (bare l) = IsLine l × IsTrimmed l × Unprompted l
IsEntry (root l) = IsLine l × IsTrimmed l × (l ≢ [])
IsEntry (user l) = IsLine l × IsTrimmed l × (l ≢ [])

drop_prompt-Unprompted : (s : Text) → Unprompted s → drop_prompt s ≡ s
unfolding starts_with
drop_prompt-Unprompted [] h = refl
drop_prompt-Unprompted (c ∷ s) h = ground arith

lstrip-IsTrimmed : (s : Text) → IsTrimmed s → lstrip_by is_space s ≡ s
unfolding lstrip_by
lstrip-IsTrimmed [] h = refl
lstrip-IsTrimmed (c ∷ s) h = rw (IsTrimmed-head c s h)

prompted-IsTrimmed :
    (c : ℕ) (s : Text) → is_space c ≡ false → s ≢ [] → IsTrimmed s → IsTrimmed (c ∷ 0x20 ∷ s)
unfolding strip lstrip_by
prompted-IsTrimmed c s h ne t =
    rw h (rstrip_by-append is_space (c ∷ 0x20 ∷ []) s (IsTrimmed-rstrip s t) ne)

written-IsTrimmed : (e : Entry) → IsEntry e → IsTrimmed (written e)
unfolding written
written-IsTrimmed (bare l) h = h.1
written-IsTrimmed (root l) h = prompted-IsTrimmed b'#' l (unfold is_space in refl) h.2 h.1
written-IsTrimmed (user l) h = prompted-IsTrimmed b'$' l (unfold is_space in refl) h.2 h.1

written-IsLine : (e : Entry) → IsEntry e → IsLine (written e)
unfolding written is_line_break
written-IsLine (bare l) h = h.0
written-IsLine (root l) h = (refl, (refl, h.0))
written-IsLine (user l) h = (refl, (refl, h.0))

strip-written : (e : Entry) → IsEntry e → drop_prompt (written e) ≡ line e
unfolding written line lstrip_by is_space
strip-written (bare l) h = drop_prompt-Unprompted l h.2
strip-written (root l) h = lstrip-IsTrimmed l h.1
strip-written (user l) h = lstrip-IsTrimmed l h.1

clean_line-written : (e : Entry) → IsEntry e → clean_line (written e) ≡ line e
clean_line-written e h =
    clean_line-drop_prompt (written e) ∙ ap drop_prompt (written-IsTrimmed e h) ∙ strip-written e h

written-ne-nil : (e : Entry) → line e ≢ [] → written e ≢ []
unfolding written line
written-ne-nil (bare l) h = h
written-ne-nil (root l) h = λ e. cc
written-ne-nil (user l) h = λ e. cc

EndsFilled-written : (es : List Entry) → EndsFilled (map line es) → EndsFilled (map written es)
EndsFilled-written [] h = tt
EndsFilled-written (e ∷ []) h = written-ne-nil e h
EndsFilled-written (e ∷ f ∷ es) h = EndsFilled-written (f ∷ es) h

All-written :
    (es : List Entry)
    → All IsEntry es
    → All IsTrimmed (map written es) × All IsLine (map written es)
All-written [] h = (tt, tt)
All-written (e ∷ es) h =
    let (trimmed, lines) = All-written es h.1 in
    ((written-IsTrimmed e h.0, trimmed), (written-IsLine e h.0, lines))

clean_lines-written :
    (es : List Entry) → All IsEntry es → map clean_line (map written es) ≡ map line es
clean_lines-written [] h = refl
clean_lines-written (e ∷ es) h = cc (clean_line-written e h.0, clean_lines-written es h.1)

-- A transcript whose first and last line are not blank is cleaned to its lines without their
-- prompts: each trimmed line comes back as it is, the blank ones between them too.
pub clean_command-written :
    (e : Entry) (es : List Entry)
    → All IsEntry (e ∷ es)
    → line e ≢ []
    → EndsFilled (map line (e ∷ es))
    → clean_command (join (0xa ∷ []) (map written (e ∷ es))) ≡ join (0xa ∷ []) (map line (e ∷ es))
unfolding clean_command
clean_command-written e es h first last =
    let (trimmed, lines) = All-written (e ∷ es) h in
    let filled = EndsFilled-written (e ∷ es) last in
    ap (λ t. join (0xa ∷ []) (map clean_line (splitlines t)))
      (join-IsTrimmed (written e) (map written es) (written-ne-nil e first) trimmed filled)
    ∙ ap (λ ls. join (0xa ∷ []) (map clean_line ls))
        (splitlines-join (map written (e ∷ es)) lines filled)
    ∙ ap (join (0xa ∷ [])) (clean_lines-written (e ∷ es) h)

-- The first line decides.
is_build_command-join :
    (l : Text) (ls : List Text)
    → l ≢ []
    → is_build_command (join (0xa ∷ []) (l ∷ ls)) ≡ not (starts_with (codes "#") l)
unfolding is_build_command starts_with join
is_build_command-join [] ls h = absurd (h refl)
is_build_command-join (c ∷ l) [] h = refl
is_build_command-join (c ∷ l) (m ∷ ls) h = refl

-- A transcript whose first and last line are not blank, cleaned, is a build command exactly when its
-- first line, behind its prompt if it has one, begins with no `#`. The sign of a comment counts as a
-- prompt, so a block whose first line is `# ` and a remark is a build command unless a second `#`
-- stands behind it.
pub is_build_command-written :
    (e : Entry) (es : List Entry)
    → All IsEntry (e ∷ es)
    → line e ≢ []
    → EndsFilled (map line (e ∷ es))
    → is_build_command (clean_command (join (0xa ∷ []) (map written (e ∷ es))))
      ≡ not (starts_with (codes "#") (line e))
is_build_command-written e es h first last =
    ap is_build_command (clean_command-written e es h first last)
    ∙ is_build_command-join (line e) (map line es) first
