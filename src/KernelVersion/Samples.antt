-- ===== src/KernelVersion/Samples.antt =====
-- The head of a Makefile.
use auto_lfs_builder.Prelude.{◌≡◌, ◌↔◌, refl, List, [], ◌∷◌, some}
use auto_lfs_builder.Text.{Text, codes, join}
use auto_lfs_builder.KernelVersion.{kernel_version}
use auto_lfs_builder.KernelVersion.Laws.{last_value, Given, kernel_version-last_value}

abbrev makefile : List Text
makefile =
    codes "VERSION = 6"
    ∷ codes "PATCHLEVEL = 12"
    ∷ codes "SUBLEVEL = 0"
    ∷ codes "EXTRAVERSION ="
    ∷ []

kernel_version-makefile : kernel_version makefile ≡ some (codes "6.12.0")
unfolding kernel_version
kernel_version-makefile = refl

kernel_version-last_value_example : (kernel_version makefile ≡ some (codes "6.12.0")) ↔ (
    (v p s : Text) × Given (last_value (codes "VERSION =") makefile) v
    × Given (last_value (codes "PATCHLEVEL =") makefile) p
    × Given (last_value (codes "SUBLEVEL =") makefile) s
    × (codes "6.12.0" ≡ join (codes ".") (v ∷ p ∷ s ∷ [])))
kernel_version-last_value_example = kernel_version-last_value makefile (codes "6.12.0")
