-- ===== src/KernelConfig/Samples.antt =====
-- A small Kconfig tree of two files.
pub mod Screen
use auto_lfs_builder.Prelude.{
  ℕ, ◌<◌, ◌≢◌, All, subst, arith, Bool-cases, inl, inr, list_beq, ◌≡◌, refl, true, false, Option,
  none, some, List, [], ◌∷◌, list_eq, nat_eq, ◌==◌, if◌then◌else◌, Dict, not, contains,
}
use auto_lfs_builder.Text.{Text, codes}
use auto_lfs_builder.KernelConfig.Stack.{
  key_beq, out_of_fuel, raise, symbol, number, State, start, ok, pop_stack_while,
}
use auto_lfs_builder.KernelConfig.Entry.{Entry, Setting, Scan, place, plain, table, flag}
use auto_lfs_builder.KernelConfig.Ending.{SourcesBelow, IsRanked, load_kconfig-IsRanked}
use auto_lfs_builder.KernelConfig.Load.{
  file_lines, directive_of, source_name, load_kconfig, is_menu_key,
}
use auto_lfs_builder.KernelConfig.Balance.{IsBalanced, load_kconfig-IsBalanced}
use auto_lfs_builder.KernelConfig.Layout.{lfs, strip_initials}
use auto_lfs_builder.KernelConfig.Program.{screen}
use auto_lfs_builder.KernelConfig.Placement.{
  IsPopped, IsPlaced, pop_stack_while-IsPopped, place-IsPlaced,
}

abbrev pub files : Text → Option Text
files file =
    if file == codes "Kconfig"
    then some (codes "menu \"Drivers\"\nsource \"arch/$(SRCARCH)/Kconfig\"\nendmenu\n")
    else if file == codes "arch/x86/Kconfig"
    then some (
        codes
          "config DRM\n\ttristate \"Graphics\"\n\nconfig DRM_I915\n\ttristate \"Intel\"\n\tdepends on DRM && PCI\n")
    else none

abbrev pub known_config : Dict Text Setting
known_config =
    (codes "DRM", plain (codes "*M"))
    ∷ (codes "DRM_I915", table (some (codes "M")) none (some (flag true)))
    ∷ []

abbrev pub entries : List Entry
entries =
    record {
      ind0 = 0;
      val = none;
      ind1 = 0;
      title = some (codes "Drivers");
      arrow = codes " --->";
      internal_key = number 2;
      menu = 0;
      comment = none;
    }
    ∷ record {
      ind0 = 2;
      val = some (codes "<*/M>");
      ind1 = 0;
      title = some (codes "Graphics");
      arrow = [];
      internal_key = symbol (codes "DRM");
      menu = 2;
      comment = none;
    }
    ∷ record {
      ind0 = 2;
      val = some (codes "{M}");
      ind1 = 2;
      title = some (codes "Intel");
      arrow = [];
      internal_key = symbol (codes "DRM_I915");
      menu = 2;
      comment = none;
    }
    ∷ []

abbrev pub end : State
end = record {
  ind0 = 0;
  ind1 = 0;
  menu_id = 2;
  stack = [];
  if_stack = [];
  main_dep =
      (symbol (codes "DRM_I915"), symbol (codes "DRM")) ∷ (symbol (codes "DRM"), number 2) ∷ [];
}

load_kconfig-tree : load_kconfig files known_config 2 (codes "Kconfig") start ≡ ok (entries, end)
unfolding load_kconfig
load_kconfig-tree = refl

start-IsBalanced : IsBalanced start
start-IsBalanced = record { first = refl; second = refl }

load_kconfig-IsBalanced_example : IsBalanced end
load_kconfig-IsBalanced_example =
    load_kconfig-IsBalanced files known_config 2 (codes "Kconfig") start entries end
      start-IsBalanced load_kconfig-tree

abbrev nested : State
nested = record start {
  ind0 = 2;
  ind1 = 2;
  stack =
      record { key = codes "DRM"; i0 = 0; i1 = 2; menu = 2 }
      ∷ record { key = codes "menu"; i0 = 2; i1 = 0; menu = 2 }
      ∷ [];
}

nested-IsBalanced : IsBalanced nested
nested-IsBalanced = record { first = refl; second = refl }

pop_stack_while-IsPopped_example :
    (s' : State) × (pop_stack_while (λ x. not (is_menu_key x)) nested ≡ ok s')
    × IsPopped (λ x. not (is_menu_key x)) nested s'
pop_stack_while-IsPopped_example =
    pop_stack_while-IsPopped (λ x. not (is_menu_key x)) nested nested-IsBalanced

-- An entry that depends on the menu and not on DRM.
abbrev scan : Scan
scan = record {
  deps = codes "menu" ∷ [];
  title = some (codes "\"Sound\"");
  klass = some (codes "bool");
}

abbrev sound : Entry
sound = record {
  ind0 = 2;
  val = none;
  ind1 = 0;
  title = some (codes "Sound");
  arrow = [];
  internal_key = symbol (codes "SND");
  menu = 2;
  comment = none;
}

abbrev after_sound : State
after_sound = record nested {
  ind1 = 2;
  stack =
      record { key = codes "SND"; i0 = 0; i1 = 2; menu = 2 }
      ∷ record { key = codes "menu"; i0 = 2; i1 = 0; menu = 2 }
      ∷ [];
  main_dep = (symbol (codes "SND"), number 2) ∷ [];
}

place-sound :
    place known_config false false (some (codes "SND")) scan nested ≡ ok (sound, after_sound)
unfolding place
place-sound = refl

place-IsPlaced_example :
    (below : State) × IsPopped (λ x. not (contains x scan.deps)) nested below
    × IsPlaced below sound after_sound
place-IsPlaced_example =
    place-IsPlaced known_config false false (some (codes "SND")) scan nested sound after_sound
      nested-IsBalanced place-sound

abbrev rank : Text → ℕ
rank file = if file == codes "Kconfig" then 1 else 0

abbrev top_text : Text
top_text = codes "menu \"Drivers\"\nsource \"arch/$(SRCARCH)/Kconfig\"\nendmenu\n"

abbrev arch_text : Text
arch_text =
    codes
      "config DRM\n\ttristate \"Graphics\"\n\nconfig DRM_I915\n\ttristate \"Intel\"\n\tdepends on DRM && PCI\n"

ok-injective : {a b : Text} → ok a ≡ ok b → a ≡ b
ok-injective h = cc h

top_file : All (SourcesBelow rank 1) (file_lines top_text)
unfolding file_lines directive_of source_name list_beq
top_file = (
  (λ sub d n. cc d),
  ((λ sub d n. subst (λ x. rank x < 1) (ok-injective n) (omega arith)), ((λ sub d n. cc d), tt)),
)

arch_file : All (SourcesBelow rank 0) (file_lines arch_text)
unfolding file_lines directive_of
arch_file = (
  (λ sub d n. cc d),
  (
    (λ sub d n. cc d),
    ((λ sub d n. cc d), ((λ sub d n. cc d), ((λ sub d n. cc d), ((λ sub d n. cc d), tt)))),
  ),
)

-- A file of the tree has one of the two texts.
files-top :
    (file text : Text) → (file == codes "Kconfig") ≡ true → files file ≡ some text → top_text ≡ text
files-top file text q e = ground (arith, q, e)

files-arch :
    (file text : Text)
    → (file == codes "Kconfig") ≡ false
    → files file ≡ some text
    → arch_text ≡ text
files-arch file text q e = elim (Bool-cases (file == codes "arch/x86/Kconfig")) [
  | inl r ↦ ground (arith, q, r, e)
  | inr r ↦ ground (arith, q, r, e)
]

files-IsRanked : IsRanked files rank
files-IsRanked file text e = elim (Bool-cases (file == codes "Kconfig")) [
  | inl q ↦
      subst (λ t. All (SourcesBelow rank (rank file)) (file_lines t)) (files-top file text q e)
        (rw (q, rank) top_file)
  | inr q ↦
      subst (λ t. All (SourcesBelow rank (rank file)) (file_lines t)) (files-arch file text q e)
        (rw (q, rank) arch_file)
]

rank-top : rank (codes "Kconfig") < 2
unfolding list_beq
rank-top = omega arith

load_kconfig-IsRanked_example :
    load_kconfig files known_config 2 (codes "Kconfig") start ≢ raise out_of_fuel
load_kconfig-IsRanked_example =
    load_kconfig-IsRanked files known_config rank 2 (codes "Kconfig") start files-IsRanked rank-top

-- The screen of the tree.
screen-tree :
    screen lfs files known_config 2
    ≡ ok (
        codes "<emphasis role='blue'>D</emphasis>rivers ---&gt;"
        ∷ codes
            "  &lt;*/M&gt; <emphasis role='blue'>G</emphasis>raphics                                                           [DRM]"
        ∷ codes
            "  {M}     <emphasis role='blue'>I</emphasis>ntel                                                       [DRM_I915]"
        ∷ [])
unfolding screen load_kconfig key_beq strip_initials
screen-tree = refl
