-- ===== src/Changelog/Partition.antt =====
-- Which packages gen-changelog.py reports as updated, added and removed.
use auto_lfs_builder.Prelude.{
  ℕ, ◌≡◌, refl, ap, List, [], ◌∷◌, Bool, false, not, ◌&&◌, ◌||◌, Option, none, some, arith,
  Bool-cases, Option-cases, inl, inr, nat_eq, list_eq, list_beq_iff, ◌==◌, contains,
  contains-append, contains-snoc,
}
use auto_lfs_builder.Text.{Text}
use auto_lfs_builder.Changelog.Entity.{ok}
use auto_lfs_builder.Changelog.Packages.{
  TextSet, add_to, package_of, Changes, note_line, changes, intersection, difference,
  symmetric_difference, sort_changes,
}

contains-add_to : (y x : Text) (s : TextSet) → contains y (add_to x s) ≡ (contains y s || y == x)
unfolding add_to
contains-add_to y x s = elim (Bool-cases (contains x s)) [
  | inr q ↦ rw q (contains-snoc y x s)
  | inl q ↦ elim (Bool-cases (y == x)) [
    | inl e ↦ ground (arith, q, e, ap (λ z. contains z s) ((list_beq_iff y x).0 e))
    | inr e ↦ ground (arith, q, e)
  ]
]

contains-intersection :
    (y : Text) (s t : TextSet) → contains y (intersection s t) ≡ (contains y s && contains y t)
unfolding intersection contains
contains-intersection y [] t = refl
contains-intersection y (x ∷ s) t = elim (Bool-cases (y == x)) [
  | inl e ↦
      ground
        (arith, e, contains-intersection y s t, ap (λ z. contains z t) ((list_beq_iff y x).0 e))
  | inr e ↦ ground (arith, e, contains-intersection y s t)
]

contains-difference :
    (y : Text) (s t : TextSet) → contains y (difference s t) ≡ (contains y s && not (contains y t))
unfolding difference contains
contains-difference y [] t = refl
contains-difference y (x ∷ s) t = elim (Bool-cases (y == x)) [
  | inl e ↦
      ground (arith, e, contains-difference y s t, ap (λ z. contains z t) ((list_beq_iff y x).0 e))
  | inr e ↦ ground (arith, e, contains-difference y s t)
]

contains-symmetric_difference :
    (y : Text) (s t : TextSet)
    → contains y (symmetric_difference s t)
      ≡ ((contains y s && not (contains y t)) || (contains y t && not (contains y s)))
unfolding symmetric_difference
contains-symmetric_difference y s t = ground (
  arith,
  contains-append y (difference s t) (difference t s),
  contains-difference y s t,
  contains-difference y t s,
)

-- The line names the checksum of the package.
abbrev pub names : Text → Option Text → Bool
names pkg none = false
names pkg (some p) = pkg == p

-- A line that begins with the sign names the checksum of the package.
unfoldable pub touched : ℕ → Text → List Text → Bool
touched sign pkg [] = false
touched sign pkg ([] ∷ lines) = touched sign pkg lines
touched sign pkg ((c ∷ line) ∷ lines) =
    (c == sign && names pkg (package_of (c ∷ line))) || touched sign pkg lines

contains-note_line :
    (pkg : Text) (c : ℕ) (line : Text) (s : Changes)
    → (contains pkg (note_line c line s).add
        ≡ (contains pkg s.add || (c == b'+' && names pkg (package_of line))))
      × (contains pkg (note_line c line s).rem
          ≡ (contains pkg s.rem || (c == b'-' && names pkg (package_of line))))
unfolding note_line
contains-note_line pkg c line s = elim (Option-cases (package_of line)) [
  | inl e ↦ ground (arith, e)
  | inr (p, e) ↦ ground (arith, e, contains-add_to pkg p s.add, contains-add_to pkg p s.rem)
]

contains-changes :
    (pkg : Text) (lines : List Text) (s s' : Changes)
    → changes lines s ≡ ok s'
    → (contains pkg s'.add ≡ (contains pkg s.add || touched b'+' pkg lines))
      × (contains pkg s'.rem ≡ (contains pkg s.rem || touched b'-' pkg lines))
unfolding changes touched
contains-changes pkg [] s s' h = ground arith
contains-changes pkg ([] ∷ lines) s s' h = cc h
contains-changes pkg ((c ∷ line) ∷ lines) s s' h =
    let (i, j) = contains-changes pkg lines (note_line c (c ∷ line) s) s' h in
    let (a, b) = contains-note_line pkg c (c ∷ line) s in ground (arith, i, j, a, b)

-- A package is reported as updated exactly if a line of the diff removes its checksum and another
-- adds one, as added if one is only added, and as removed if one is only removed.
pub sort_changes-touched :
    (pkg : Text) (lines : List Text) (s : Changes)
    → changes lines (record { add = []; rem = [] }) ≡ ok s
    → (contains pkg (sort_changes s).upd ≡ (touched b'+' pkg lines && touched b'-' pkg lines))
      × (contains pkg (sort_changes s).add
          ≡ (touched b'+' pkg lines && not (touched b'-' pkg lines)))
      × (contains pkg (sort_changes s).rem
          ≡ (touched b'-' pkg lines && not (touched b'+' pkg lines)))
unfolding sort_changes contains
sort_changes-touched pkg lines s h =
    let (i, j) = contains-changes pkg lines (record { add = []; rem = [] }) s h in
    let upd = intersection s.add s.rem in
    ground (
      arith,
      i,
      j,
      contains-intersection pkg s.add s.rem,
      contains-symmetric_difference pkg s.add upd,
      contains-symmetric_difference pkg s.rem upd,
    )
