-- ===== src/Menuconfig/Number.antt =====
-- `int(s, base)` of Python, and `_check_valid` of menuconfig.py.
use auto_lfs_builder.Prelude.{
  ℕ, zero, suc, ◌≤◌, ◌+◌, ◌-◌, ◌*◌, List, [], ◌∷◌, Bool, true, false, drop, not, ◌&&◌, ◌||◌, Option,
  none, some, ltb, leb, nat_eq, ◌==◌, if◌then◌else◌,
}
use auto_lfs_builder.Text.{Text, codes, is_nil, strip, starts_with}
use auto_lfs_builder.Menuconfig.Kconf.{Kconf, Item, Kind, int_kind, hex_kind}
use auto_lfs_builder.Menuconfig.Navigate.{◌>>=◌}

-- The integers.
pub data ℤ : Type 0 where
  pos : ℕ → ℤ
  negsuc : ℕ → ℤ

abbrev pub le_int : ℤ → ℤ → Bool
le_int (pos a) (pos b) = leb a b
le_int (pos a) (negsuc b) = false
le_int (negsuc a) (pos b) = true
le_int (negsuc a) (negsuc b) = leb b a

-- The order that `le_int` tests.
abbrev pub pos_part : ℤ → ℕ
pos_part (pos a) = a
pos_part (negsuc a) = 0

abbrev pub neg_part : ℤ → ℕ
neg_part (pos a) = 0
neg_part (negsuc a) = suc a

infix 50 ◌≤ℤ◌
abbrev pub ◌≤ℤ◌ : ℤ → ℤ → Type 0
a ≤ℤ b = pos_part a + neg_part b ≤ pos_part b + neg_part a

abbrev negative : ℕ → ℤ
negative zero = pos 0
negative (suc a) = negsuc a

-- A character of a number: a digit, `_`, or another.
pub data Figure : Type 0 where
  digit : ℕ → Figure
  underscore : Figure
  no_figure : Figure

unfoldable pub figure_of : ℕ → ℕ → Figure
figure_of base c =
    if leb b'0' c && leb c b'9'
    then digit (c - b'0')
    else if c == b'_'
    then underscore
    else if base == 16 && leb b'a' c && leb c b'f'
    then digit (c - b'a' + 10)
    else if base == 16 && leb b'A' c && leb c b'F'
    then digit (c - b'A' + 10)
    else no_figure

-- The digits of a number, of which underscores may stand between two. The flag tells that the last
-- character was a digit.
unfoldable pub magnitude : ℕ → ℕ → Bool → Text → Option ℕ
unfolding figure_of
magnitude base value is_digit [] = if is_digit then some value else none
magnitude base value is_digit (c ∷ s) = elim (figure_of base c) [
  | digit d ↦ magnitude base (value * base + d) true s
  | underscore ↦ elim is_digit [ true ↦ magnitude base value false s | false ↦ none ]
  | no_figure ↦ none
]

-- The prefix of a hexadecimal number; an underscore may follow it.
unfoldable pub unprefixed : ℕ → Text → Option ℕ
unfolding magnitude starts_with
unprefixed base s =
    if base == 16 && (starts_with (codes "0x") s || starts_with (codes "0X") s)
    then (if is_nil (drop 2 s) then none else magnitude base 0 true (drop 2 s))
    else magnitude base 0 false s

unfoldable pub int_of : ℕ → Text → Option ℤ
unfolding unprefixed strip
int_of base s = signed (strip s)
  where
    with_sign : (ℕ → ℤ) → Option ℕ → Option ℤ
    with_sign f none = none
    with_sign f (some m) = some (f m)

    signed : Text → Option ℤ
    signed [] = none
    signed (c ∷ t) =
        if c == b'-'
        then with_sign negative (unprefixed base t)
        else if c == b'+'
        then with_sign pos (unprefixed base t)
        else with_sign pos (unprefixed base (c ∷ t))

abbrev pub is_number_kind : Kind → Bool
is_number_kind int_kind = true
is_number_kind hex_kind = true
is_number_kind _ = false

abbrev pub base_of : Kind → ℕ
base_of int_kind = 10
base_of _ = 16

-- The loop over the ranges; `none` is the `ValueError` of an end that is no number.
unfoldable pub check_ranges : ℕ → ℤ → List (Text × Text × ℕ) → Option Bool
unfolding int_of
check_ranges base value [] = some true
check_ranges base value ((low_s, high_s, cond) ∷ ranges) = elim (ltb 0 cond) [
  | false ↦ check_ranges base value ranges
  | true ↦ do
    low ← int_of base low_s
    if le_int low value
        then (do high ← int_of base high_s; some (le_int value high))
        else some false
]

module _ {V : Type 0} (kconf : Kconf V) where
  unfoldable pub check_valid : V → Item → Text → Option Bool
  unfolding check_ranges int_of
  check_valid v sym s =
      let base = base_of (kconf.orig_type sym) in
      if not (is_number_kind (kconf.orig_type sym)) then some true else elim (int_of base s) [
        | none ↦ some false
        | some value ↦ check_ranges base value (kconf.ranges v sym)
      ]
