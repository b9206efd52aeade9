-- ===== src/Merger/Laws.antt =====
-- What `merge_sources` returns, and which repositories `update_documentation` pulls.
use auto_lfs_builder.Prelude.{
  ◌≡◌, ◌⊎◌, inl, inr, refl, sym, ap, List, [], ◌∷◌, ◌++◌, Bool, Option, none, some, if◌then◌else◌,
  arith, Option-cases, append_assoc, append-nil, Bool-cases,
}
use auto_lfs_builder.Text.{Text, codes, is_nil, join}
use auto_lfs_builder.Outside.{FilePath, Files}
use auto_lfs_builder.Merger.{
  Event, out, err, pull, Pulled, pulled, failed, failed_update, Result, return, raise, read_sources,
  merge_sources, repository, update_each, update_documentation,
}

-- The contents of the files that exist, in the order of the list; `none` when one cannot be read.
unfoldable pub contents_of : Files → List FilePath → Option (List Text)
contents_of files [] = some []
contents_of files (path ∷ sources) =
    let rest = contents_of files sources in
    if files.exists path
    then elim (files.read_text path) [
      | none ↦ none
      | some text ↦ elim rest [ none ↦ none | some texts ↦ some (text ∷ texts) ]
    ]
    else rest

read_sources-append :
    (files : Files) (acc : List Text) (sources : List FilePath)
    → read_sources files acc sources
      ≡ (elim (contents_of files sources) [ none ↦ none | some texts ↦ some (acc ++ texts) ])
unfolding read_sources contents_of
read_sources-append files acc [] = ap some (sym (append-nil acc))
read_sources-append files acc (path ∷ sources) = elim (Bool-cases (files.exists path)) [
  | inr q ↦ ground (arith, q, read_sources-append files acc sources)
  | inl q ↦ elim (Option-cases (files.read_text path)) [
    | inl e ↦ ground (arith, q, e)
    | inr (t, e) ↦ elim (Option-cases (contents_of files sources)) [
      | inl n ↦ ground (arith, q, e, n, read_sources-append files (acc ++ t ∷ []) sources)
      | inr (ts, n) ↦ ground (
        arith,
        q,
        e,
        n,
        append_assoc acc (t ∷ []) ts,
        read_sources-append files (acc ++ t ∷ []) sources,
      )
    ]
  ]
]

-- The merged text is the contents of the existing files, in the order of the list and parted by a
-- line break; the function raises exactly when it meets an existing file that cannot be read.
pub merge_sources-contents_of :
    (files : Files) (sources : List FilePath)
    → merge_sources files sources ≡ (elim (contents_of files sources) [
      | none ↦ none
      | some texts ↦ some (join (codes "\n") texts)
    ])
unfolding merge_sources
merge_sources-contents_of files sources = elim (Option-cases (contents_of files sources)) [
  | inl n ↦ ground (arith, n, read_sources-append files [] sources)
  | inr (ts, n) ↦ ground (arith, n, read_sources-append files [] sources)
]

-- The repositories that were pulled, in order.
unfoldable pub pulls : List Event → List FilePath
pulls [] = []
pulls (out line ∷ events) = pulls events
pulls (err line ∷ events) = pulls events
pulls (pull repo ∷ events) = repo ∷ pulls events

Pulled-cases :
    (p : Pulled) → ((stdout : Text) × (p ≡ pulled stdout)) ⊎ ((stderr : Text) × (p ≡ failed stderr))
Pulled-cases (pulled o) = inl (o, refl)
Pulled-cases (failed e) = inr (e, refl)

module _ (files : Files) (git : FilePath → Pulled) (docs : FilePath) where
  -- What becomes of one name: it is no repository, its pull fails, or its pull succeeds.
  unfoldable pub is_git : Text → Bool
  is_git name = files.exists (repository files git docs name ++ codes "/.git")

  -- The pulls that happen, and the repository at which they stop.
  unfoldable pub expected : List Text → List FilePath × Option FilePath
  unfolding is_git
  expected [] = ([], none)
  expected (name ∷ names) =
      let repo = repository files git docs name in
      let (repos, stop) = expected names in
      if is_git name
      then elim (git repo) [
        | pulled stdout ↦ (repo ∷ repos, stop)
        | failed stderr ↦ (repo ∷ [], some repo)
      ]
      else (repos, stop)

  unfoldable pub outcome : Option FilePath → Result (Unit {0})
  outcome none = return tt
  outcome (some repo) = raise (failed_update repo)

  update_each-expected :
      (names : List Text)
      → (pulls (update_each files git docs names).0 ≡ (expected names).0)
        × ((update_each files git docs names).1 ≡ outcome ((expected names).1))
  unfolding expected update_each pulls outcome
  update_each-expected [] = (refl, refl)
  update_each-expected (name ∷ names) =
      let (i, j) = update_each-expected names in
      elim (Bool-cases (is_git name)) [
        | inl q ↦ elim (Pulled-cases (git (repository files git docs name))) [
          | inl (o, e) ↦ elim (Bool-cases (is_nil o)) [
            | inl n ↦ rw (q, e, n) (ap (λ xs. repository files git docs name ∷ xs) i, j)
            | inr n ↦ rw (q, e, n) (ap (λ xs. repository files git docs name ∷ xs) i, j)
          ]
          | inr (o, e) ↦ rw (q, e) (refl, refl)
        ]
        | inr q ↦ rw q (i, j)
      ]

  -- The repositories lfs-git, blfs-git and jhalfs are pulled in this order, those that are no git
  -- repository left out, until a pull fails; that failure is raised, and without one the update
  -- returns.
  pub update_documentation-expected :
      (pulls (update_documentation files git docs).0
        ≡ (expected (codes "lfs-git" ∷ codes "blfs-git" ∷ codes "jhalfs" ∷ [])).0)
      × ((update_documentation files git docs).1
          ≡ outcome ((expected (codes "lfs-git" ∷ codes "blfs-git" ∷ codes "jhalfs" ∷ [])).1))
  unfolding update_documentation
  update_documentation-expected =
      update_each-expected (codes "lfs-git" ∷ codes "blfs-git" ∷ codes "jhalfs" ∷ [])
