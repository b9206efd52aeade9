-- ===== src/Changelog/Report.antt =====
-- What gen-changelog.py prints.
use auto_lfs_builder.Prelude.{
  ℕ, List, [], ◌∷◌, ◌++◌, Option, none, some, nat_eq, list_eq, if◌then◌else◌, Dict, lookup,
  contains,
}
use auto_lfs_builder.Text.{Text, codes, is_nil}
use auto_lfs_builder.Changelog.Entity.{
  Exception, type_error, Result, ok, raise, ◌>>=◌, expand_entity,
}
use auto_lfs_builder.Changelog.Packages.{TextSet, Sorted, lines_of, entities, changes, sort_changes}
use auto_lfs_builder.Changelog.Tickets.{Tickets, tickets, hold_ticket}

-- The lines that are printed, and the exception that ends the printing, if one does.
pub record Output : Type 0 where
  pub printed : List Text
  pub failure : Option Exception

abbrev pub print : Text → Output
print line = record { printed = line ∷ []; failure = none }

abbrev pub nothing : Output
nothing = record { printed = []; failure = none }

infixr 6 ◌then_print◌
abbrev pub ◌then_print◌ : Output → Output → Output
p then_print q = elim p.failure [
  | none ↦ record { printed = p.printed ++ q.printed; failure = q.failure }
  | some e ↦ p
]

-- A line that may not be made.
abbrev pub print_result : Result Text → Output
print_result (ok line) = print line
print_result (raise e) = record { printed = []; failure = some e }

unfoldable pub print_each : (Text → Output) → List Text → Output
print_each f [] = nothing
print_each f (i ∷ s) = f i then_print print_each f s

-- `order` is the order in which Python iterates over a set, `fuel` the bound on nested entities and
-- `name` what `getenv("USER")` gives.
module _ (order : TextSet → List Text) (fuel : ℕ) (ent : Dict Text Text) (t : Tickets)
    (name : Option Text) where
  -- `i + "-" + expand_entity(ent, i + "-version")`
  unfoldable pub pkgver_of : Text → Result Text
  unfolding expand_entity
  pkgver_of i = do
    version ← expand_entity fuel ent (i ++ codes "-version")
    ok (i ++ (codes "-" ++ version))

  -- ` (#ticket)`
  unfoldable pub plain_ticket : Text → Text → Text
  unfolding lookup
  plain_ticket pkgver i = elim (lookup pkgver t.ticket) [
    | some tic ↦ codes " (#" ++ (tic ++ codes ")")
    | none ↦ elim (lookup i hold_ticket) [
      | some tic ↦ codes " (#" ++ (tic ++ codes ")")
      | none ↦ []
    ]
  ]

  -- `print("-", out)`
  unfoldable pub plain_line : Text → Text → Result Text
  unfolding pkgver_of plain_ticket
  plain_line act i = do
    pkgver ← pkgver_of i
    ok (codes "- " ++ (act ++ (pkgver ++ plain_ticket pkgver i)))

  -- What the text says of the ticket, and the ticket.
  unfoldable pub xml_ticket : Text → Text → Option (Text × Text)
  unfolding lookup
  xml_ticket pkgver i = elim (lookup pkgver t.ticket) [
    | some tic ↦ some (codes "  Fixes\n          ", tic)
    | none ↦ elim (lookup i hold_ticket) [
      | some tic ↦ some (codes "  Addresses\n          ", tic)
      | none ↦ none
    ]
  ]

  -- An empty `pkg_ticket` gives no link.
  unfoldable pub xml_link : Option (Text × Text) → Text
  xml_link none = []
  xml_link (some (text, tic)) =
      text
      ++ (if is_nil tic
          then []
          else codes "<ulink url='&lfs-ticket-root;"
            ++ (tic ++ (codes "'>#" ++ (tic ++ codes "</ulink>."))))

  unfoldable pub xml_paragraph : Text → Text → Text → Text → Text
  unfolding contains xml_ticket xml_link
  xml_paragraph user act i pkgver =
      codes "          <para>["
      ++ (user
          ++ (codes "] - "
              ++ (act
                  ++ (pkgver
                      ++ ((if contains pkgver t.security then codes " (security fix)" else [])
                          ++ (codes "." ++ (xml_link (xml_ticket pkgver i) ++ codes "</para>")))))))

  unfoldable pub xml_line : Text → Text → Result Text
  unfolding pkgver_of xml_paragraph
  xml_line act i = do
    pkgver ← pkgver_of i
    elim name [ none ↦ raise type_error | some user ↦ ok (xml_paragraph user act i pkgver) ]

  unfoldable pub xml_item : Text → Text → Output
  unfolding xml_line
  xml_item act i =
      print (codes "        <listitem>")
      then_print print_result (xml_line act i)
      then_print print (codes "        </listitem>")

  unfoldable pub plain_part : Sorted → Output
  unfolding print_each plain_line
  plain_part s =
      print (codes "Plain Text:")
      then_print print_each (λ i. print_result (plain_line (codes "Update to ") i)) (order s.upd)
      then_print print_each (λ i. print_result (plain_line (codes "Add ") i)) (order s.add)
      then_print print_each (λ i. print (codes "- Remove " ++ i)) (order s.rem)

  unfoldable pub xml_part : Sorted → Output
  unfolding print_each xml_item
  xml_part s =
      print (codes "---------------------")
      then_print print (codes "XML")
      then_print print_each (xml_item (codes "Update to ")) (order s.upd)
      then_print print_each (xml_item (codes "Add ")) (order s.add)

-- The program, on what `git diff` prints and the lines of the tracker's answer.
unfoldable pub main :
    (order : TextSet → List Text) (fuel : ℕ) (name : Option Text) (stdout : Text) (tsv : List Text)
    → Output
unfolding lines_of entities changes sort_changes tickets plain_part xml_part
main order fuel name stdout tsv = elim (entities (lines_of stdout) []) [
  | raise e ↦ record { printed = []; failure = some e }
  | ok ent ↦ elim (changes (lines_of stdout) (record { add = []; rem = [] })) [
    | raise e ↦ record { printed = []; failure = some e }
    | ok s ↦
        let t = tickets tsv (record { ticket = []; security = [] }) in
        plain_part order fuel ent t name (sort_changes s)
        then_print xml_part order fuel ent t name (sort_changes s)
  ]
]
