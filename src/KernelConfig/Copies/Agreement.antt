-- ===== src/KernelConfig/Copies/Agreement.antt =====
-- How the screens of the copies compare with that of the first program.
use auto_lfs_builder.Prelude.{
  ℕ, ◌≡◌, ◌≢◌, refl, sym, ap, fun_ext, ◌∙◌, keys, List, [], ◌∷◌, ◌++◌, map, All, true, false,
  Option, none, some, arith, Bool-cases, inl, inr, nat_eq, list_eq, ◌==◌, Dict,
}
use auto_lfs_builder.Text.{Text, codes, lstrip_by}
use auto_lfs_builder.KernelConfig.Stack.{Result, ok, raise, ◌>>=◌}
use auto_lfs_builder.KernelConfig.Entry.{Comment, Setting}
use auto_lfs_builder.KernelConfig.Program.{screen, shown_rows}
use auto_lfs_builder.KernelConfig.Copies.Blfs
use auto_lfs_builder.KernelConfig.Layout.{
  Row, lfs, is_initial, strip_initials, comment_lines, comment_part, line_of, print_row, print_rows,
  max_val_len, check_done, padded, used, shorten, spaces,
}
use auto_lfs_builder.KernelConfig.Columns.{IsSound}
use auto_lfs_builder.KernelConfig.Copies.Letter.{
  is_alpha, is_marked, skip_to_letter, blank_or_comment, copied,
}

-- What `lstrip` skips is no letter that may be marked.
initial-unmarked : (c : ℕ) → is_initial c ≡ true → is_marked c ≡ false
unfolding is_initial is_marked
initial-unmarked c h = ground arith

-- Any other letter may be marked.
alpha-is_marked : (c : ℕ) → is_initial c ≡ false → is_alpha c ≡ true → is_marked c ≡ true
unfolding is_initial is_marked
alpha-is_marked c h k = ground arith

ok-injective {ℓ} : {A : Type ℓ} {a b : A} → ok a ≡ ok b → a ≡ b
ok-injective h = cc h

-- The first program finds a letter in the title: the first character that it does not skip.
abbrev pub FindsLetter : Text → Type 0
FindsLetter title = (c : ℕ) × (b : Text) × (strip_initials title ≡ ok (c ∷ b)) × (is_alpha c ≡ true)

skip_to_letter-lstrip_by :
    (title : Text) (c : ℕ) (b : Text)
    → lstrip_by is_initial title ≡ c ∷ b
    → is_alpha c ≡ true
    → skip_to_letter title ≡ ok (c ∷ b)
unfolding lstrip_by skip_to_letter
skip_to_letter-lstrip_by [] c b h alpha = cc h
skip_to_letter-lstrip_by (d ∷ title) c b h alpha = elim (Bool-cases (is_initial d)) [
  | inl q ↦
      ground (arith, q, initial-unmarked d q, skip_to_letter-lstrip_by title c b (rw q at h) alpha)
  | inr q ↦ let same : d ∷ title ≡ c ∷ b = rw q at h in ground (arith, same, alpha-is_marked d)
]

skip_to_letter-strip_initials :
    (title : Text) → FindsLetter title → skip_to_letter title ≡ strip_initials title
unfolding strip_initials
skip_to_letter-strip_initials title (c, b, h, alpha) =
    skip_to_letter-lstrip_by title c b (ok-injective h) alpha ∙ sym h

-- What is printed for the row needs none of what the copies do in their own way.
pub record IsCommon (longest : Dict ℕ ℕ) (row : Row) : Type 0 where
  pub title :
      row.val == codes "(X)" ≡ false
      → FindsLetter (shorten (used row (padded longest row)) row.title)
  pub comment : (c : Comment) → row.comment ≡ some c → All (λ line. line ≢ []) (comment_lines c)

line_of-copied :
    (longest : Dict ℕ ℕ) (row : Row)
    → IsCommon longest row
    → line_of lfs longest row ≡ line_of copied longest row
unfolding line_of
line_of-copied longest row common = elim (Bool-cases (row.val == codes "(X)")) [
  | inl q ↦ rw q refl
  | inr q ↦
      rw
        (
          q,
          skip_to_letter-strip_initials (shorten (used row (padded longest row)) row.title)
              (common.title q),
        )
        refl
]

comment_lines-copied :
    (i0 : ℕ) (lines : List Text)
    → All (λ line. line ≢ []) lines
    → map (lfs.comment_line i0) lines ≡ map (copied.comment_line i0) lines
unfolding blank_or_comment
comment_lines-copied i0 [] h = refl
comment_lines-copied i0 ([] ∷ lines) h = absurd (h.0 refl)
comment_lines-copied i0 ((c ∷ line) ∷ lines) h =
    ap (λ xs. (spaces i0 ++ (codes "# " ++ c ∷ line)) ∷ xs) (comment_lines-copied i0 lines h.1)

comment_part-copied :
    (i0 : ℕ) (comment : Option Comment)
    → ((c : Comment) → comment ≡ some c → All (λ line. line ≢ []) (comment_lines c))
    → comment_part lfs i0 comment ≡ comment_part copied i0 comment
unfolding comment_part
comment_part-copied i0 none h = refl
comment_part-copied i0 (some c) h = rw (comment_lines-copied i0 (comment_lines c) (h c refl)) refl

print_row-copied :
    (longest : Dict ℕ ℕ) (row : Row) (buf : List Text)
    → IsCommon longest row
    → print_row lfs longest row buf ≡ print_row copied longest row buf
unfolding print_row
print_row-copied longest row buf common =
    rw (line_of-copied longest row common, comment_part-copied row.i0 row.comment common.comment)
      refl

print_rows-copied :
    (longest : Dict ℕ ℕ) (r : List Row) (buf : List Text)
    → All (IsCommon longest) r
    → print_rows lfs longest r buf ≡ print_rows copied longest r buf
unfolding print_rows
print_rows-copied longest [] buf h = refl
print_rows-copied longest (row ∷ r) buf h =
    ap (λ m. m >>= λ b. print_rows lfs longest r b) (print_row-copied longest row buf h.0)
    ∙ ap (λ (f : List Text → Result (List Text)). print_row copied longest row buf >>= f)
        (fun_ext (λ b. print_rows-copied longest r b h.1))

suffix-skip_to_letter :
    (title b : Text) → skip_to_letter title ≡ ok b → (a : Text) × (title ≡ a ++ b)
unfolding skip_to_letter
suffix-skip_to_letter [] b h = cc h
suffix-skip_to_letter (c ∷ title) b h = elim (Bool-cases (is_marked c)) [
  | inl q ↦ ([], ok-injective (rw q at h))
  | inr q ↦ let (a, e) = suffix-skip_to_letter title b (rw q at h) in (c ∷ a, ap (λ s. c ∷ s) e)
]

pub copied-IsSound : IsSound copied
copied-IsSound = suffix-skip_to_letter

-- Where the first program finds a letter in every shown title that is not of a choice and no comment
-- has a blank line, the copy in docs/blfs-git prints the same screen, and raises the same exceptions.
pub screen-copied :
    (files : Text → Option Text) (known_config : Dict Text Setting) (fuel : ℕ)
    → ((r : List Row)
        → shown_rows files known_config fuel ≡ ok r
        → All (IsCommon (max_val_len [] r)) r)
    → Blfs.screen files known_config fuel ≡ screen lfs files known_config fuel
unfolding Blfs.screen screen
screen-copied files known_config fuel common = by_rows (shown_rows files known_config fuel) refl
  where
    by_rows :
        (m : Result (List Row))
        → shown_rows files known_config fuel ≡ m
        → (do
          r ← m
          _ ← check_done r (keys known_config)
          print_rows copied (max_val_len [] r) r [])
          ≡ (do r ← m; _ ← check_done r (keys known_config); print_rows lfs (max_val_len [] r) r [])
    by_rows (raise e) h = refl
    by_rows (ok r) h =
        ap (λ m. (do _ ← check_done r (keys known_config); m))
          (sym (print_rows-copied (max_val_len [] r) r [] (common r h)))
