-- ===== src/KernelConfig/Copies/Letter.antt =====
-- What the two copies do in their own way.
use auto_lfs_builder.Prelude.{
  ℕ, [], ◌∷◌, ◌++◌, Bool, not, ◌&&◌, ◌||◌, leb, nat_eq, list_eq, if◌then◌else◌, contains,
}
use auto_lfs_builder.Text.{Text, codes, is_nil}
use auto_lfs_builder.KernelConfig.Stack.{Result, ok, raise, index_error}
use auto_lfs_builder.KernelConfig.Layout.{Variant, spaces}

-- `c.isalpha()`, for the letters of ASCII.
abbrev pub is_alpha : ℕ → Bool
is_alpha c = (leb b'A' c && leb c b'Z') || (leb b'a' c && leb c b'z')

-- A letter that may be marked.
unfoldable pub is_marked : ℕ → Bool
unfolding contains
is_marked c = is_alpha c && not (contains c (codes "YyMmNnHh"))

-- `while not (b[0].isalpha() and b[0] not in 'YyMmNnHh'): b = b[1:]`
unfoldable pub skip_to_letter : Text → Result Text
unfolding is_marked
skip_to_letter [] = raise index_error
skip_to_letter (c ∷ b) = let rest = skip_to_letter b in if is_marked c then ok (c ∷ b) else rest

-- `' ' * i0 + ('# ' if line else '') + line`
unfoldable pub blank_or_comment : ℕ → Text → Text
blank_or_comment i0 line = spaces i0 ++ ((if is_nil line then [] else codes "# ") ++ line)

abbrev pub copied : Variant
copied = record { skip_initials = skip_to_letter; comment_line = blank_or_comment }
