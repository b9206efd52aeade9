-- ===== src/LfsParser/Dependencies.antt =====
-- `resolve_dependencies` of src/parsers/lfs_parser.py.
use auto_lfs_builder.Prelude.{
  List, [], ◌∷◌, ◌++◌, map, Bool, true, not, ◌&&◌, ◌||◌, Option, none, some, nat_eq, list_eq,
  list_beq, ◌==◌, if◌then◌else◌,
}
use auto_lfs_builder.Text.{Text, codes, is_nil, is_space, strip, lower, rstrip_dots, split_on}
use auto_lfs_builder.Regex.{
  Pattern, one, many, lazily, capture, any_char, none_of, same_letter, some_of, letters, sub,
  search_from,
}
use auto_lfs_builder.Outside.{FilePath, Files, BeautifulSoup}

-- `\s+and\s+`
unfoldable pub and_pattern : Pattern
unfolding is_space
and_pattern =
    some_of is_space
    ++ (one (λ c. c == b'a') ∷ one (λ c. c == b'n') ∷ one (λ c. c == b'd') ∷ some_of is_space)

-- A package name that is put into a pattern as it is. A full stop there stands for any character;
-- names with other special characters of `re` are outside the model.
unfoldable pub unescaped : Text → Pattern
unescaped name = map (λ x. one (if x == b'.' then (λ c. true) else same_letter x)) name

-- The pattern that `re.search` is given, with `IGNORECASE` and `DOTALL`.
unfoldable pub depends_pattern : Text → Pattern
unfolding letters unescaped is_space lower
depends_pattern name =
    letters (codes "<bridgehead")
    ++ (many (none_of b'>')
        ∷ one (λ c. c == b'>')
        ∷ many is_space
        ∷ (letters name
            ++ (many is_space
                ∷ (letters (codes "</bridgehead>")
                    ++ (lazily any_char
                        ∷ (letters (codes "<segmentedlist")
                            ++ (many (none_of b'>')
                                ∷ (letters (codes "id=")
                                    ++ (one (λ c. c == 0x22 || c == 0x27)
                                        ∷ (unescaped (lower name)
                                            ++ (letters (codes "-depends")
                                                ++ (one (λ c. c == 0x22 || c == 0x27)
                                                    ∷ many (none_of b'>')
                                                    ∷ one (λ c. c == b'>')
                                                    ∷ lazily any_char
                                                    ∷ (letters (codes "<seg>")
                                                        ++ (capture any_char
                                                            ∷ letters (codes "</seg>")))))))))))))))

-- The test of the comprehension, and what it keeps of an entry.
unfoldable pub is_listed : Text → Bool
unfolding strip lower list_beq
is_listed d = not (is_nil (strip d)) && not (lower (strip d) == codes "none")

unfoldable pub dep_name : Text → Text
unfolding strip rstrip_dots
dep_name d = rstrip_dots (strip d)

unfoldable pub dep_names : List Text → List Text
unfolding is_listed dep_name
dep_names [] = []
dep_names (d ∷ ds) = let rest = dep_names ds in if is_listed d then dep_name d ∷ rest else rest

-- The last lines of the function: the list that the text of a segment spells.
unfoldable pub parse_deps : Text → List Text
unfolding sub and_pattern split_on dep_names
parse_deps text = dep_names (split_on b',' (sub and_pattern (codes ", ") text))

module _ (bs : BeautifulSoup) where
  open bs use {Tag, find_bridgeheads, find_next_depends, find_seg, get_text, xml_parser}

  -- The loop that breaks at the first heading of that name.
  unfoldable pub find_bridge : Text → List Tag → Option Tag
  unfolding strip lower list_beq
  find_bridge name [] = none
  find_bridge name (b ∷ bridges) =
      let rest = find_bridge name bridges in
      if lower (strip (get_text b)) == lower name then some b else rest

  -- `none` where the source returns `[]` because a tag is missing.
  unfoldable pub soup_segment : Text → Text → Option Text
  soup_segment name text = elim (find_bridge name (find_bridgeheads (xml_parser text))) [
    | none ↦ none
    | some bridge ↦ elim (find_next_depends bridge) [
      | none ↦ none
      | some seglist ↦ elim (find_seg seglist) [ none ↦ none | some seg ↦ some (get_text seg) ]
    ]
  ]

unfoldable pub regex_segment : Text → Text → Option Text
regex_segment name text = elim (search_from (depends_pattern name) true text) [
  | none ↦ none
  | some m ↦ some m.group
]

unfoldable pub deps_of_text : Option BeautifulSoup → Text → Text → List Text
deps_of_text (some bs) name text = elim (soup_segment bs name text) [
  | none ↦ []
  | some segment ↦ parse_deps segment
]
deps_of_text none name text = elim (regex_segment name text) [
  | none ↦ []
  | some segment ↦ parse_deps segment
]

-- `none` is the exception of `read_text`.
unfoldable pub resolve_dependencies :
    Option BeautifulSoup → Files → Text → FilePath → Option (List Text)
resolve_dependencies bs files package_name dependency_file =
    if not (files.exists dependency_file) then some [] else elim (files.read_text dependency_file) [
      | none ↦ none
      | some text ↦ some (deps_of_text bs package_name text)
    ]
