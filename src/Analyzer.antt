-- ===== src/Analyzer.antt =====
-- src/parsers/package_analyzer.py
pub mod Laws
pub mod Samples
use auto_lfs_builder.Prelude.{
  List, [], ◌∷◌, ◌++◌, map, Bool, true, false, ◌&&◌, Option, none, some, if◌then◌else◌,
}
use auto_lfs_builder.Text.{Text, codes, lower, starts_with, ends_with}
use auto_lfs_builder.Outside.{FilePath, Files, BeautifulSoup}
use auto_lfs_builder.LfsParser.Commands.{extract_build_commands}
use auto_lfs_builder.LfsParser.Dependencies.{resolve_dependencies}

-- What `os.walk` yields, in its order: a directory and the names of its files.
abbrev pub Walk : Type 0
Walk = List (FilePath × List Text)

-- `Path(directory) / f`
unfoldable pub join_path : FilePath → Text → FilePath
join_path directory f = directory ++ (codes "/" ++ f)

-- The test of the loop, for the name in lower case.
unfoldable pub is_package_file : Text → Text → Bool
unfolding lower starts_with ends_with
is_package_file name_lower f = starts_with name_lower (lower f) && ends_with (codes ".xml") f

-- The inner loop: the path that it returns, if it returns.
unfoldable pub find_in_directory : Text → FilePath → List Text → Option FilePath
unfolding is_package_file join_path
find_in_directory name_lower directory [] = none
find_in_directory name_lower directory (f ∷ files) =
    let rest = find_in_directory name_lower directory files in
    if is_package_file name_lower f then some (join_path directory f) else rest

-- The outer loop.
unfoldable pub find_in_walk : Text → Walk → Option FilePath
unfolding find_in_directory
find_in_walk name_lower [] = none
find_in_walk name_lower ((directory, files) ∷ walk) =
    let rest = find_in_walk name_lower walk in
    elim (find_in_directory name_lower directory files) [ some path ↦ some path | none ↦ rest ]

unfoldable pub find_package_file : Text → Walk → Option FilePath
unfolding find_in_walk lower
find_package_file package_name walk = find_in_walk (lower package_name) walk

-- The dictionary of a found package.
pub record Analysis : Type 0 where
  pub name : Text
  pub file : FilePath
  pub commands : List Text
  pub dependencies : List Text

-- `none` is the exception of `read_text`, and `some none` the empty dictionary.
unfoldable pub analyze_package :
    Option BeautifulSoup → Files → Walk → FilePath → Text → Option (Option Analysis)
analyze_package bs files walk dependency_file package_name =
    elim (find_package_file package_name walk) [
      | none ↦ some none
      | some path ↦ elim (extract_build_commands bs files path) [
        | none ↦ none
        | some commands ↦ elim (resolve_dependencies bs files package_name dependency_file) [
          | none ↦ none
          | some deps ↦ some (
              some (record {
                name = package_name;
                file = path;
                commands = commands;
                dependencies = deps;
              }))
        ]
      ]
    ]

unfoldable pub extract_requirements :
    Option BeautifulSoup → Files → FilePath → Text → Option (List Text)
extract_requirements bs files dependency_file package_name =
    resolve_dependencies bs files package_name dependency_file

-- The lines that `_cli` prints for an analysis.
unfoldable pub report : Option Analysis → List Text
report none = codes "Package not found" ∷ []
report (some a) =
    (codes "Package: " ++ a.name)
    ∷ (codes "File: " ++ a.file)
    ∷ codes "Dependencies:"
    ∷ (map (λ dep. codes "  - " ++ dep) a.dependencies ++ (codes "Commands:" ∷ a.commands))
