-- ===== src/KernelConfig/Layout.antt =====
-- The lines that kernel-config.py prints: a screen of 80 columns in DocBook.
use auto_lfs_builder.Prelude.{
  ℕ, ◌+◌, ◌-◌, max, List, [], ◌∷◌, ◌++◌, map, length, take, replicate, Bool, not, ◌&&◌, ◌||◌,
  Option, none, some, nat_eq, list_eq, list_beq, ◌==◌, leb, ltb, if◌then◌else◌, contains, Dict,
  lookup_or, insert,
}
use auto_lfs_builder.Text.{Text, codes, is_nil, is_space, lstrip_by, rstrip_by, join}
use auto_lfs_builder.KernelConfig.Lines.{drop_end, replace_from}
use auto_lfs_builder.KernelConfig.Stack.{
  Key, symbol, number, index_error, seems_not_exist, Result, ok, raise, ◌>>=◌,
}
use auto_lfs_builder.KernelConfig.Entry.{Entry, Comment, one_line, many_lines}

-- An element of `r` that is shown.
pub record Row : Type 0 where
  pub i0 : ℕ
  pub val : Text
  pub i1 : ℕ
  pub title : Text
  pub arrow : Text
  pub key : Key
  pub menu : ℕ
  pub comment : Option Comment

-- `[i for i in r if i[1] != None and i[3]]`, for one element.
unfoldable pub row_of : Entry → Option Row
row_of entry = elim entry.val [
  | none ↦ none
  | some val ↦ elim entry.title [
    | none ↦ none
    | some title ↦
        if is_nil title
        then none
        else some (record {
          i0 = entry.ind0;
          val = val;
          i1 = entry.ind1;
          title = title;
          arrow = entry.arrow;
          key = entry.internal_key;
          menu = entry.menu;
          comment = entry.comment;
        })
  ]
]

unfoldable pub rows : List Entry → List Row
unfolding row_of
rows [] = []
rows (entry ∷ r) = elim (row_of entry) [ none ↦ rows r | some row ↦ row ∷ rows r ]

unfoldable pub escape : Text → Text
unfolding replace_from
escape x = replace_from (codes ">") (codes "&gt;") 0 (replace_from (codes "<") (codes "&lt;") 0 x)

-- The loop that fills `max_val_len`.
unfoldable pub max_val_len : Dict ℕ ℕ → List Row → Dict ℕ ℕ
unfolding lookup_or insert
max_val_len longest [] = longest
max_val_len longest (row ∷ r) =
    max_val_len (insert row.menu (max (lookup_or row.menu longest 0) (length row.val)) longest) r

-- `i not in done` for a name of the TOML file.
unfoldable pub is_done : Text → List Row → Bool
unfolding list_beq
is_done i [] = i == codes "revision"
is_done i (row ∷ r) = elim row.key [ number n ↦ is_done i r | symbol s ↦ i == s || is_done i r ]

-- The loop over `known_config`.
unfoldable pub check_done : List Row → List Text → Result (Unit {0})
unfolding is_done
check_done r [] = ok tt
check_done r (i ∷ known) =
    let rest = check_done r known in if is_done i r then rest else raise (seems_not_exist i)

abbrev pub max_line : ℕ
max_line = 80

abbrev pub spaces : ℕ → Text
spaces n = replicate n 0x20

-- `val += (max_val_len[menu] - len(val)) * ' '` where `val` is not empty.
unfoldable pub padded : Dict ℕ ℕ → Row → Text
unfolding lookup_or
padded longest row =
    if is_nil row.val then [] else row.val ++ spaces (lookup_or row.menu longest 0 - length row.val)

-- `bool(val)`
abbrev pub one_if : Text → ℕ
one_if [] = 0
one_if (c ∷ s) = 1

-- The columns that are taken off `rem` before it is compared with the length of the title.
abbrev pub used : Row → Text → ℕ
used row val = row.i0 + row.i1 + one_if val + length val + length row.arrow

-- `title[:rem - 3] + '...'` where the title is longer than `rem`. If `rem - 3` is negative, the
-- slice leaves that many characters out at the end.
unfoldable pub shorten : ℕ → Text → Text
shorten taken title =
    if ltb max_line (length title + taken)
    then (if leb (taken + 3) max_line
        then take (max_line - 3 - taken) title
        else drop_end (taken + 3 - max_line) title)
      ++ codes "..."
    else title

-- The title with its first letter marked: `b` is what is left of it from that letter on.
unfoldable pub mark_title : Text → Text → Result Text
unfolding escape
mark_title title [] = raise index_error
mark_title title (c ∷ b) = ok (
    escape (take (length title - length (c ∷ b)) title)
    ++ (codes "<emphasis role='blue'>" ++ (escape (c ∷ []) ++ (codes "</emphasis>" ++ escape b))))

abbrev pub key_text : Key → Text
key_text (number n) = []
key_text (symbol key) = codes " [" ++ (key ++ codes "]")

-- The key at the right margin, or on a line of its own; `taken` is what `rem` has lost by then.
unfoldable pub place_key : ℕ → Text → Text
place_key taken key =
    if leb (length key + taken) max_line
    then spaces (max_line - taken - length key) ++ key
    else codes "\n" ++ (spaces (max_line - length (codes "... " ++ key)) ++ (codes "... " ++ key))

-- What the copies of the program do in their own way: how the letter is found that is marked, and
-- how a line of a comment begins.
pub record Variant : Type 0 where
  pub skip_initials : Text → Result Text
  pub comment_line : ℕ → Text → Text

-- The characters of `'YyMmNnHh.' + "".join(map(str, range(10)))`.
unfoldable pub is_initial : ℕ → Bool
unfolding contains
is_initial c = contains c (codes "YyMmNnHh.0123456789")

-- `b.lstrip(...)`
unfoldable pub strip_initials : Text → Result Text
unfolding is_initial lstrip_by
strip_initials b = ok (lstrip_by is_initial b)

abbrev pub lfs : Variant
lfs = record {
  skip_initials = strip_initials;
  comment_line = λ i0 line. spaces i0 ++ (codes "# " ++ line);
}

unfoldable pub comment_lines : Comment → List Text
comment_lines (one_line line) = line ∷ []
comment_lines (many_lines lines) = lines

module _ (variant : Variant) where
  -- `buf` gets the comment, escaped and with a colon, unless it has no lines.
  unfoldable pub comment_part : ℕ → Option Comment → List Text
  unfolding comment_lines escape join
  comment_part i0 none = []
  comment_part i0 (some comment) =
      if is_nil (comment_lines comment)
      then []
      else (escape (join (codes "\n") (map (variant.comment_line i0) (comment_lines comment)))
          ++ codes ":")
        ∷ []

  -- The line of a row, as it is put together.
  unfoldable pub line_of : Dict ℕ ℕ → Row → Result Text
  unfolding padded shorten mark_title place_key escape list_beq
  line_of longest row =
      let val = padded longest row in
      let taken = used row val in
      let title = shorten taken row.title in
      do
        b ← if row.val == codes "(X)" then ok title else variant.skip_initials title
        marked ← mark_title title b
        ok (
            spaces row.i0
            ++ (escape val
                ++ (spaces (row.i1 + one_if val)
                    ++ (marked
                        ++ (escape row.arrow
                            ++ place_key (taken + length title) (key_text row.key))))))

  -- The body of the last loop.
  unfoldable pub print_row : Dict ℕ ℕ → Row → List Text → Result (List Text)
  unfolding line_of comment_part rstrip_by is_space
  print_row longest row buf = do
    line ← line_of longest row
    let commented = buf ++ comment_part row.i0 row.comment
    let parted = if row.menu == 0 && not (is_nil commented) then commented ++ [] ∷ [] else commented
    ok (parted ++ rstrip_by is_space line ∷ [])

  unfoldable pub print_rows : Dict ℕ ℕ → List Row → List Text → Result (List Text)
  unfolding print_row
  print_rows longest [] buf = ok buf
  print_rows longest (row ∷ r) buf = do buf' ← print_row longest row buf; print_rows longest r buf'
