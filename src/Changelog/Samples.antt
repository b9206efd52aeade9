-- ===== src/Changelog/Samples.antt =====
-- The update of a package in a diff of three lines.
use auto_lfs_builder.Prelude.{
  ℕ, ◌<◌, ◌≡◌, refl, List, [], ◌∷◌, true, false, not, ◌&&◌, none, some, arith, Bool-cases, inl, inr,
  nat_eq, list_eq, list_beq, ◌==◌, if◌then◌else◌, contains, Dict, lookup, All,
}
use auto_lfs_builder.Text.{Text, codes, is_space}
use auto_lfs_builder.Changelog.Entity.{
  index_error, ok, get_entity, expand_entity, expand_value, find, entity_key, entity_value,
}
use auto_lfs_builder.KernelConfig.Lines.{before_quote}
use auto_lfs_builder.Changelog.Packages.{
  TextSet, Changes, lines_of, entities, changes, sort_changes,
}
use auto_lfs_builder.Changelog.Report.{main}
use auto_lfs_builder.Changelog.Blank.{main_blank}
use auto_lfs_builder.Changelog.Partition.{touched, sort_changes-touched}
use auto_lfs_builder.Changelog.RoundTrip.{declaration, get_entity-declaration}
use auto_lfs_builder.Changelog.Expansion.{
  Piece, text, reference, write_all, IsPiece, IsRanked, IsExpansion, expand_pieces,
  expand_entity-pieces, expand_entity-IsRanked,
}

program : Unit {0}
unfolding list_beq get_entity find entity_key entity_value before_quote main lines_of entities
    changes sort_changes expand_entity expand_value lookup contains expand_pieces touched
program = tt

abbrev diff : Text
diff =
    codes
      " <!ENTITY vim-major \"9\">\n+<!ENTITY vim-version \"&vim-major;.1\">\n-<!ENTITY vim-md5 \"0\">\n+<!ENTITY vim-md5 \"1\">\n+<!ENTITY xz-md5 \"2\">\n+<!ENTITY xz-version \"5\">\n"

-- The order of the elements as they were added.
abbrev as_added : TextSet → List Text
as_added s = s

main-diff : main as_added 3 (some (codes "me")) diff (codes "77\tVim-9.1 \thigh" ∷ []) ≡ record {
  printed =
      codes "Plain Text:"
      ∷ codes "- Update to vim-9.1 (#77)"
      ∷ codes "- Add xz-5"
      ∷ codes "---------------------"
      ∷ codes "XML"
      ∷ codes "        <listitem>"
      ∷ codes
          "          <para>[me] - Update to vim-9.1 (security fix).  Fixes\n          <ulink url='&lfs-ticket-root;77'>#77</ulink>.</para>"
      ∷ codes "        </listitem>"
      ∷ codes "        <listitem>"
      ∷ codes "          <para>[me] - Add xz-5.</para>"
      ∷ codes "        </listitem>"
      ∷ [];
  failure = none;
}
unfolding program
main-diff = refl

-- Without a change `git diff` prints nothing, and the program fails on the empty line.
main-nothing :
    main as_added 3 (some (codes "me")) [] [] ≡ record { printed = []; failure = some index_error }
unfolding program
main-nothing = refl

abbrev lines : List Text
lines = codes "-<!ENTITY vim-md5 \"0\">" ∷ codes "+<!ENTITY vim-md5 \"1\">" ∷ []

abbrev changed : Changes
changed = record { add = codes "vim" ∷ []; rem = codes "vim" ∷ [] }

lines-changed : changes lines (record { add = []; rem = [] }) ≡ ok changed
unfolding program
lines-changed = refl

sort_changes-touched_example :
    (contains (codes "vim") (sort_changes changed).upd
      ≡ (touched b'+' (codes "vim") lines && touched b'-' (codes "vim") lines))
    × (contains (codes "vim") (sort_changes changed).add
        ≡ (touched b'+' (codes "vim") lines && not (touched b'-' (codes "vim") lines)))
    × (contains (codes "vim") (sort_changes changed).rem
        ≡ (touched b'-' (codes "vim") lines && not (touched b'+' (codes "vim") lines)))
sort_changes-touched_example = sort_changes-touched (codes "vim") lines changed lines-changed

lacks-key : contains 0x22 (codes "vim-md5") ≡ false
unfolding contains
lacks-key = refl

get_entity-declaration_example :
    get_entity (b'+' ∷ declaration (codes "vim-md5") (codes "vim-md5") (codes ">"))
    ≡ some (codes "vim-md5", codes "vim-md5")
get_entity-declaration_example =
    get_entity-declaration b'+' (codes "vim-md5") (codes "vim-md5") (codes ">") lacks-key lacks-key

abbrev ent : Dict Text Text
ent = (codes "a", codes "x&b;y") ∷ (codes "b", codes "1") ∷ []

abbrev pieces : List Piece
pieces = text (codes "x") ∷ reference (codes "b") ∷ text (codes "y") ∷ []

pieces-IsPiece : All IsPiece pieces
unfolding contains
pieces-IsPiece = (refl, ((refl, refl), (refl, tt)))

ent-a : lookup (codes "a") ent ≡ some (write_all pieces)
unfolding program
ent-a = refl

expand_entity-pieces_example :
    expand_entity 2 ent (codes "a") ≡ expand_pieces (expand_entity 1 ent) pieces
expand_entity-pieces_example = expand_entity-pieces 1 ent (codes "a") pieces pieces-IsPiece ent-a

abbrev rank : Text → ℕ
rank key = if codes "a" == key then 1 else 0

one-IsPiece : All IsPiece (text (codes "1") ∷ [])
unfolding contains
one-IsPiece = (refl, tt)

ent-IsRanked : IsRanked ent rank
unfolding lookup list_beq
ent-IsRanked key value e = elim (Bool-cases (list_beq (codes "a") key)) [
  | inl q ↦ (pieces, pieces-IsPiece, ground (arith, q, e), rw q (tt, (omega arith, (tt, tt))))
  | inr q ↦ elim (Bool-cases (list_beq (codes "b") key)) [
    | inl r ↦ (text (codes "1") ∷ [], one-IsPiece, ground (arith, q, r, e), (tt, tt))
    | inr r ↦ absurd (ground (arith, q, r, e))
  ]
]

rank-a : rank (codes "a") < 2
unfolding list_beq
rank-a = omega arith

expand_entity-IsRanked_example : IsExpansion ent (expand_entity 2 ent (codes "a"))
expand_entity-IsRanked_example = expand_entity-IsRanked 2 ent rank (codes "a") ent-IsRanked rank-a

newline : All (λ c. is_space c ≡ true) (codes "\n")
unfolding is_space
newline = (refl, tt)

main_blank_example :
    main as_added 1 none (codes "\n") [] ≡ record { printed = []; failure = some index_error }
main_blank_example = main_blank as_added 1 none (codes "\n") [] newline
