-- ===== src/Text.antt =====
-- Python `str` values as lists of code points, and the methods of `str` that the source calls.
-- `lower` maps the ASCII letters only: package names, tags and file names of the books are ASCII.
pub mod Trim
pub mod Parts
pub mod Lines
pub mod Affix
pub mod Samples
use Prim.Native.Char.{code}
use Prim.Native.String.{String}
use auto_lfs_builder.Prelude.{
  ℕ, ◌+◌, List, [], ◌∷◌, ◌++◌, map, Bool, true, false, ◌&&◌, ◌||◌, not, leb, nat_eq, list_eq,
  list_beq, ◌==◌, if◌then◌else◌,
}

abbrev pub Text : Type 0
Text = List ℕ

-- The code points of a literal.
abbrev pub codes : String → Text
codes String.[] = []
codes (String.◌∷◌ c s) = code c ∷ codes s

-- `str.isspace` of one character, which is also the class `\s` of `re`.
unfoldable pub is_space : ℕ → Bool
is_space c =
    (leb 0x9 c && leb c 0xd)
    || (leb 0x1c c && leb c 0x20)
    || c == 0x85
    || c == 0xa0
    || c == 0x1680
    || (leb 0x2000 c && leb c 0x200a)
    || c == 0x2028
    || c == 0x2029
    || c == 0x202f
    || c == 0x205f
    || c == 0x3000

unfoldable pub lower_char : ℕ → ℕ
lower_char c = if leb b'A' c && leb c b'Z' then c + 32 else c

-- `s.lower()`
unfoldable pub lower : Text → Text
unfolding lower_char
lower s = map lower_char s

abbrev pub is_nil {ℓ} : {A : Type ℓ} → List A → Bool
is_nil [] = true
is_nil (x ∷ xs) = false

-- `s.lstrip` of the characters that pass the test.
unfoldable pub lstrip_by : (ℕ → Bool) → Text → Text
lstrip_by p [] = []
lstrip_by p (c ∷ s) = let rest = lstrip_by p s in if p c then rest else c ∷ s

-- `s.rstrip` of the characters that pass the test.
unfoldable pub rstrip_by : (ℕ → Bool) → Text → Text
rstrip_by p [] = []
rstrip_by p (c ∷ s) = let rest = rstrip_by p s in if is_nil rest && p c then [] else c ∷ rest

-- `s.strip()`
unfoldable pub strip : Text → Text
unfolding is_space lstrip_by rstrip_by
strip s = rstrip_by is_space (lstrip_by is_space s)

-- `s.rstrip(".")`
unfoldable pub rstrip_dots : Text → Text
unfolding rstrip_by
rstrip_dots s = rstrip_by (λ c. c == b'.') s

-- `s.startswith(prefix)`
unfoldable pub starts_with : Text → Text → Bool
starts_with [] s = true
starts_with (p ∷ ps) [] = false
starts_with (p ∷ ps) (c ∷ s) = p == c && starts_with ps s

-- `s.endswith(suffix)`
unfoldable pub ends_with : Text → Text → Bool
unfolding list_beq
ends_with suffix [] = is_nil suffix
ends_with suffix (c ∷ s) = suffix == (c ∷ s) || ends_with suffix s

-- The line boundaries of `str.splitlines`.
unfoldable pub is_line_break : ℕ → Bool
is_line_break c =
    (leb 0xa c && leb c 0xd)
    || (leb 0x1c c && leb c 0x1e)
    || c == 0x85
    || c == 0x2028
    || c == 0x2029

-- Puts a character in front of the first part.
unfoldable pub cons_head : ℕ → List Text → List Text
cons_head c [] = (c ∷ []) ∷ []
cons_head c (l ∷ ls) = (c ∷ l) ∷ ls

-- `s.splitlines()`. A carriage return in front of a line feed ends the line together with it.
unfoldable pub splitlines : Text → List Text
unfolding starts_with is_line_break cons_head
splitlines [] = []
splitlines (c ∷ s) =
    let rest = splitlines s in
    if c == 0xd && starts_with (0xa ∷ []) s
    then rest
    else if is_line_break c
    then [] ∷ rest
    else cons_head c rest

-- `s.split(sep)` for a separator of one character.
unfoldable pub split_on : ℕ → Text → List Text
unfolding cons_head
split_on sep [] = [] ∷ []
split_on sep (c ∷ s) = let rest = split_on sep s in if c == sep then [] ∷ rest else cons_head c rest

-- `sep.join(parts)`
unfoldable pub join : Text → List Text → Text
join sep [] = []
join sep (p ∷ []) = p
join sep (p ∷ q ∷ ps) = p ++ (sep ++ join sep (q ∷ ps))
