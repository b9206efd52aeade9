-- ===== src/LfsParser/Xml/Laws.antt =====
-- What `parse_xml` returns, and when it raises.
use auto_lfs_builder.Prelude.{
  ◌≡◌, ◌↔◌, inl, inr, refl, List, [], ◌∷◌, not, ◌||◌, Option, none, some, nat_eq, list_eq, ◌==◌,
  if◌then◌else◌, Dict, insert, lookup, lookup-insert, lookup-nil, arith, Option-cases, Bool-cases,
}
use auto_lfs_builder.Text.{Text, is_nil}
use auto_lfs_builder.LfsParser.Xml.{
  Node, element, special, Parsed, tree, nothing, syntax_error, other_error, Lxml, Entry, returned,
  raised, local_name, stripped_text, convert, handle, parse_xml,
}

-- The entry that an element is worth, if it has attributes or text.
unfoldable pub entry_of : Node → Option Entry
entry_of special = none
entry_of (element tag text attrib) =
    if not (is_nil attrib) || not (is_nil (stripped_text text))
    then some (record { attributes = attrib; text = stripped_text text })
    else none

-- Of the elements with that local name, the entry of the last that is worth one.
unfoldable pub last_entry : Text → List Node → Option Entry
last_entry name [] = none
last_entry name (special ∷ nodes) = last_entry name nodes
last_entry name (element tag text attrib ∷ nodes) = elim (last_entry name nodes) [
  | some e ↦ some e
  | none ↦ if local_name tag == name then entry_of (element tag text attrib) else none
]

-- A comment, a processing instruction or an entity.
abbrev pub HasSpecial : List Node → Type 0
HasSpecial [] = ⊥
HasSpecial (special ∷ nodes) = Unit
HasSpecial (element tag text attrib ∷ nodes) = HasSpecial nodes

convert-lookup :
    (nodes : List Node) (result d : Dict Text Entry) (name : Text)
    → convert result nodes ≡ some d
    → lookup name d ≡ (elim (last_entry name nodes) [ some e ↦ some e | none ↦ lookup name result ])
unfolding convert last_entry entry_of
convert-lookup [] result d name h = ground arith
convert-lookup (special ∷ nodes) result d name h = cc
convert-lookup (element tag text attrib ∷ nodes) result d name h =
    elim (Bool-cases (not (is_nil attrib) || not (is_nil (stripped_text text)))) [
      | inl q ↦
          let e : Entry = record { attributes = attrib; text = stripped_text text } in
          ground (
            arith,
            q,
            convert-lookup nodes (insert (local_name tag) e result) d name (rw q at h),
            lookup-insert (local_name tag) name e result,
          )
      | inr q ↦ ground (arith, q, convert-lookup nodes result d name (rw q at h))
    ]

convert-special :
    (nodes : List Node) (result : Dict Text Entry)
    → (convert result nodes ≡ none) ↔ HasSpecial nodes
unfolding convert
convert-special [] result = (λ h. cc, λ h. absurd h)
convert-special (special ∷ nodes) result = (λ h. tt, λ h. refl)
convert-special (element tag text attrib ∷ nodes) result = convert-special nodes (
    if not (is_nil attrib) || not (is_nil (stripped_text text))
    then insert (local_name tag) (record { attributes = attrib; text = stripped_text text }) result
    else result)

-- A returned dictionary has for each local name the entry of the last element of that name with
-- attributes or text, and nothing for the other names.
pub parse_xml-lookup :
    (lxml : Lxml) (content : Text) (log : List Text) (nodes : List Node) (d : Dict Text Entry)
    (name : Text)
    → lxml.fromstring content ≡ tree log nodes
    → (parse_xml lxml content).1 ≡ returned d
    → lookup name d ≡ last_entry name nodes
unfolding parse_xml
parse_xml-lookup lxml content log nodes d name parsed h = elim (Option-cases (convert [] nodes)) [
  | inl e ↦ ground (arith, parsed, e)
  | inr (r, e) ↦
      ground (arith, parsed, e, convert-lookup nodes [] r name e, lookup-nil {V = Entry} name)
]

-- What the function makes no dictionary of.
abbrev pub Unusable : Parsed → Type 0
Unusable (tree log nodes) = HasSpecial nodes
Unusable (nothing log) = Unit
Unusable (syntax_error message) = Unit
Unusable (other_error message) = Unit

-- The function raises exactly when lxml does, when nothing could be recovered, and when the tree
-- has a comment, a processing instruction or an entity.
pub parse_xml_raises :
    (lxml : Lxml) (content : Text)
    → ((message : Text) × ((parse_xml lxml content).1 ≡ raised message))
      ↔ Unusable (lxml.fromstring content)
unfolding parse_xml
parse_xml_raises lxml content = by_parsed (lxml.fromstring content)
  where
    by_parsed :
        (p : Parsed) → ((message : Text) × ((handle lxml p).1 ≡ raised message)) ↔ Unusable p
    by_parsed (syntax_error m) = (λ _. tt, λ _. (_, refl))
    by_parsed (other_error m) = (λ _. tt, λ _. (_, refl))
    by_parsed (nothing log) = (λ _. tt, λ _. (_, refl))
    by_parsed (tree log nodes) = elim (Option-cases (convert [] nodes)) [
      | inl e ↦ rw (e, handle) (λ _. (convert-special nodes []).0 e, λ _. (_, refl))
      | inr (d, e) ↦ rw (e, handle) (λ h. cc (h.1), λ h. cc ((convert-special nodes []).1 h, e))
    ]
