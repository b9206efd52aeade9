-- ===== src/Analyzer/Laws.antt =====
-- What `_find_package_file` and `analyze_package` return.
use auto_lfs_builder.Prelude.{
  ◌≡◌, sym, subst, ◌↔◌, ◌⊎◌, inl, inr, refl, ap, List, [], ◌∷◌, ◌++◌, true, Option, none, some,
  nat_eq, list_eq, arith, Bool-cases, All,
}
use auto_lfs_builder.Text.{Text, codes, lower, starts_with, ends_with}
use auto_lfs_builder.Text.Affix.{
  HasPrefix, HasSuffix, starts_with-HasPrefix, starts_with-append, ends_with-HasSuffix,
  ends_with-append,
}
use auto_lfs_builder.Outside.{FilePath, Files, BeautifulSoup}
use auto_lfs_builder.LfsParser.Dependencies.{resolve_dependencies}
use auto_lfs_builder.LfsParser.Commands.{extract_build_commands}
use auto_lfs_builder.Analyzer.{
  Walk, join_path, is_package_file, find_in_directory, find_in_walk, find_package_file,
  analyze_package,
}

-- The files of a walk in the order in which they are looked at, each with its directory.
files_of : FilePath → List Text → List (FilePath × Text)
files_of directory [] = []
files_of directory (f ∷ files) = (directory, f) ∷ files_of directory files

unfoldable pub visited_files : Walk → List (FilePath × Text)
unfolding files_of
visited_files [] = []
visited_files ((directory, files) ∷ walk) = files_of directory files ++ visited_files walk

-- The name of a file that begins with that of the package, in any case, and ends with `.xml`.
abbrev pub IsNamed : Text → Text → Type 0
IsNamed name_lower f = HasPrefix name_lower (lower f) × HasSuffix (codes ".xml") f

is_package_file-IsNamed :
    (name_lower f : Text) → (is_package_file name_lower f ≡ true) ↔ IsNamed name_lower f
unfolding is_package_file
is_package_file-IsNamed name_lower f = (
  λ h. (
    starts_with-HasPrefix name_lower (lower f) (ground (arith, h)),
    ends_with-HasSuffix (codes ".xml") f (ground (arith, h)),
  ),
  λ ((rest, begins), (front, ends)).
      let l : starts_with name_lower (lower f) ≡ true =
        subst (λ t. starts_with name_lower t ≡ true) (sym begins)
          (starts_with-append name_lower rest) in
      let r : ends_with (codes ".xml") f ≡ true =
        subst (λ t. ends_with (codes ".xml") t ≡ true) (sym ends)
          (ends_with-append (codes ".xml") front) in
      ground (arith, l, r),
)

-- The file of the package: the first of the walk that is named so.
pub record IsFirst (name_lower : Text) (seen : List (FilePath × Text)) (path : FilePath)
    : Type 0 where
  pub before : List (FilePath × Text)
  pub directory : FilePath
  pub file : Text
  pub after : List (FilePath × Text)
  pub split : seen ≡ before ++ (directory, file) ∷ after
  pub location : path ≡ directory ++ (codes "/" ++ file)
  pub is_named : IsNamed name_lower file
  pub earlier : All (λ (d, f). ¬ IsNamed name_lower f) before

abbrev pub FirstMatch : Text → List (FilePath × Text) → Option FilePath → Type 0
FirstMatch name_lower seen none = All (λ (d, f). ¬ IsNamed name_lower f) seen
FirstMatch name_lower seen (some path) = IsFirst name_lower seen path

FirstMatch-skip :
    (name : Text) (d : FilePath) (f : Text) (seen : List (FilePath × Text)) (r : Option FilePath)
    → ¬ IsNamed name f
    → FirstMatch name seen r
    → FirstMatch name ((d, f) ∷ seen) r
FirstMatch-skip name d f seen none h m = (h, m)
FirstMatch-skip name d f seen (some path) h m = record {
  before = (d, f) ∷ m.before;
  directory = m.directory;
  file = m.file;
  after = m.after;
  split = ap (λ l. (d, f) ∷ l) m.split;
  location = m.location;
  is_named = m.is_named;
  earlier = (h, m.earlier);
}

-- A directory, and the rest of the walk behind it.
find_in_directory-FirstMatch :
    (name : Text) (d : FilePath) (files : List Text) (more : List (FilePath × Text))
    (rest : Option FilePath)
    → FirstMatch name more rest
    → FirstMatch name
        (files_of d files ++ more)
        (elim (find_in_directory name d files) [ some path ↦ some path | none ↦ rest ])
unfolding find_in_directory join_path files_of
find_in_directory-FirstMatch name d [] more rest h = h
find_in_directory-FirstMatch name d (f ∷ files) more rest h =
    elim (Bool-cases (is_package_file name f)) [
      | inl q ↦ rw q (record {
        before = [];
        directory = d;
        file = f;
        after = files_of d files ++ more;
        split = refl;
        location = refl;
        is_named = (is_package_file-IsNamed name f).0 q;
        earlier = tt;
      })
      | inr q ↦ rw q (
          FirstMatch-skip name d f (files_of d files ++ more) _
            (λ h. ground (arith, q, (is_package_file-IsNamed name f).1 h))
            (find_in_directory-FirstMatch name d files more rest h))
    ]

find_in_walk-FirstMatch :
    (name : Text) (walk : Walk) → FirstMatch name (visited_files walk) (find_in_walk name walk)
unfolding find_in_walk visited_files
find_in_walk-FirstMatch name [] = tt
find_in_walk-FirstMatch name ((d, files) ∷ walk) =
    find_in_directory-FirstMatch name d files (visited_files walk) (find_in_walk name walk)
      (find_in_walk-FirstMatch name walk)

-- The path that is found is that of the first file of the walk whose name begins with the name of
-- the package, in any case, and ends with `.xml`; none is found only if no file is named so.
pub find_package_file-FirstMatch :
    (package_name : Text) (walk : Walk)
    → FirstMatch (lower package_name) (visited_files walk) (find_package_file package_name walk)
unfolding find_package_file
find_package_file-FirstMatch package_name walk = find_in_walk-FirstMatch (lower package_name) walk

-- The analysis is an exception exactly when a file is found and its commands or the lists of
-- dependencies cannot be read, and empty exactly when no file is found.
pub analyze_package_cases :
    (bs : Option BeautifulSoup) (files : Files) (walk : Walk) (file : FilePath) (name : Text)
    → ((analyze_package bs files walk file name ≡ some none) ↔ (find_package_file name walk ≡ none))
      × ((analyze_package bs files walk file name ≡ none) ↔ (
          (path : FilePath) × (find_package_file name walk ≡ some path)
          × ((extract_build_commands bs files path ≡ none)
              ⊎ (resolve_dependencies bs files name file ≡ none))))
unfolding analyze_package
analyze_package_cases bs files walk file name = ground arith
