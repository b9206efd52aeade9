-- ===== src/KernelConfig/Lines.antt =====
-- What kernel-config.py does with the text of a line: `expand_var`, `clean_dep` and the methods of
-- `str` that only this program calls.
use auto_lfs_builder.Prelude.{
  ℕ, zero, suc, ◌-◌, List, [], ◌∷◌, ◌++◌, length, take, Bool, true, false, ◌||◌, nat_eq, list_eq,
  ◌==◌, leb, if◌then◌else◌, Dict,
}
use auto_lfs_builder.Text.{
  Text, codes, is_space, strip, lstrip_by, starts_with, ends_with, cons_head, split_on,
}

-- `s.replace(old, new)` for an `old` that is not empty; the number counts the characters of an
-- occurrence that are still to be left out.
unfoldable pub replace_from : Text → Text → ℕ → Text → Text
unfolding starts_with
replace_from old new k [] = []
replace_from old new (suc k) (c ∷ s) = replace_from old new k s
replace_from old new zero (c ∷ s) =
    let hit = starts_with old (c ∷ s) in
    let rest = replace_from old new (if hit then length old - 1 else 0) s in
    if hit then new ++ rest else c ∷ rest

-- The loop of `expand_var` over `expand_var_mp`.
unfoldable pub expand_each : Dict Text Text → Text → Text
unfolding replace_from
expand_each [] s = s
expand_each ((k, v) ∷ mp) s = expand_each mp (replace_from (codes "$(" ++ (k ++ codes ")")) v 0 s)

abbrev pub expand_var_mp : Dict Text Text
expand_var_mp = (codes "SRCARCH", codes "x86") ∷ []

unfoldable pub expand_var : Text → Text
unfolding expand_each
expand_var s = expand_each expand_var_mp s

-- `d[:-n]`
abbrev pub drop_end : ℕ → Text → Text
drop_end n d = take (length d - n) d

unfoldable pub clean_dep : Text → Text
unfolding strip ends_with
clean_dep d =
    let d = strip d in
    if ends_with (codes "=y") d || ends_with (codes "=M") d
    then drop_end 2 d
    else if ends_with (codes " != \"\"") d
    then drop_end 6 d
    else d

-- `s.split()`
unfoldable pub split_words : Text → List Text
unfolding is_space cons_head
split_words [] = []
split_words (c ∷ s) =
    let rest = split_words s in if is_space c then rest else continue_word s c rest
  where
    continue_word : Text → ℕ → List Text → List Text
    continue_word [] c rest = (c ∷ []) ∷ rest
    continue_word (d ∷ s) c rest = if is_space d then (c ∷ []) ∷ rest else cons_head c rest

-- `s.split("&&")`; the test tells that the second character of a separator is to be left out.
unfoldable pub split_and_from : Bool → Text → List Text
unfolding starts_with cons_head
split_and_from skip [] = [] ∷ []
split_and_from true (c ∷ s) = split_and_from false s
split_and_from false (c ∷ s) =
    let cut = starts_with (codes "&&") (c ∷ s) in
    let rest = split_and_from cut s in if cut then [] ∷ rest else cons_head c rest

abbrev pub quote : ℕ
quote = 0x22

-- `t[:t.find('"')]`: without a quote `find` is -1 and the last character goes.
unfoldable pub before_quote : Text → Text
unfolding split_on
before_quote t = elim (split_on quote t) [
  | [] ↦ []
  | part ∷ [] ↦ drop_end 1 t
  | part ∷ (other ∷ parts) ↦ part
]

-- `line[line.rfind('"') + 1:]`
unfoldable pub after_quote : Text → Text
unfolding split_on
after_quote line = last_of (split_on quote line)
  where
    last_of : List Text → Text
    last_of [] = []
    last_of (p ∷ []) = p
    last_of (p ∷ q ∷ ps) = last_of (q ∷ ps)

-- `title.strip().lstrip('"')`, cut at the next quote.
unfoldable pub clean_title : Text → Text
unfolding strip before_quote
clean_title title = before_quote (lstrip_by (λ c. c == quote) (strip title))

-- `val.sort()` on the characters of a setting.
unfoldable pub sort_chars : Text → Text
sort_chars [] = []
sort_chars (c ∷ s) = insert_char c (sort_chars s)
  where
    insert_char : ℕ → Text → Text
    insert_char c [] = c ∷ []
    insert_char c (d ∷ s) = if leb c d then c ∷ d ∷ s else d ∷ insert_char c s
