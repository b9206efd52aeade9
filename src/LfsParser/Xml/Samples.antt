-- ===== src/LfsParser/Xml/Samples.antt =====
-- A small document, and one with a comment.
use auto_lfs_builder.Prelude.{
  ◌≡◌, ◌↔◌, refl, none, some, List, [], ◌∷◌, lookup, nat_eq, list_eq, list_beq, ◌==◌, if◌then◌else◌,
}
use auto_lfs_builder.Text.{Text, codes}
use auto_lfs_builder.LfsParser.Xml.{
  Node, element, special, tree, Lxml, Entry, returned, raised, parse_xml, convert,
}
use auto_lfs_builder.LfsParser.Xml.Laws.{last_entry, Unusable, parse_xml-lookup, parse_xml_raises}

abbrev nodes : List Node
nodes =
    element (codes "{urn:lfs}book") (some (codes "\n  ")) []
    ∷ element (codes "{urn:lfs}package") (some (codes " Bash ")) []
    ∷ element (codes "package") (some (codes "Sed")) ((codes "id", codes "sed") ∷ [])
    ∷ element (codes "package") none []
    ∷ []

abbrev lxml : Lxml
lxml = record {
  fromstring =
      λ content. if content == codes "book" then tree [] nodes else tree [] (special ∷ nodes);
  no_iter = codes "'NoneType' object has no attribute 'iter'";
  not_iterable = codes "argument of type 'cython_function_or_method' is not iterable";
}

abbrev entries : List (Text × Entry)
entries =
    (codes "package", record { attributes = (codes "id", codes "sed") ∷ []; text = codes "Sed" })
    ∷ []

parsed : lxml.fromstring (codes "book") ≡ tree [] nodes
unfolding list_beq
parsed = refl

parse_xml-book : (parse_xml lxml (codes "book")).1 ≡ returned entries
unfolding list_beq parse_xml convert
parse_xml-book = refl

parse_xml-lookup_example : lookup (codes "package") entries ≡ last_entry (codes "package") nodes
parse_xml-lookup_example =
    parse_xml-lookup lxml (codes "book") [] nodes entries (codes "package") parsed parse_xml-book

parse_xml_raises_example :
    ((message : Text) × ((parse_xml lxml (codes "comment")).1 ≡ raised message))
    ↔ Unusable (lxml.fromstring (codes "comment"))
parse_xml_raises_example = parse_xml_raises lxml (codes "comment")
