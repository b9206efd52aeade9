-- ===== src/KernelConfig/Samples/Screen.antt =====
-- The counting of references and the screen, at the entries of the small tree.
use auto_lfs_builder.Prelude.{
  ℕ, zero, suc, ◌+◌, ◌≤◌, ◌<◌, ◌≡◌, ◌≢◌, refl, subst, List, [], ◌∷◌, All, get_elem?, none, some,
  arith, nat_eq, list_eq, list_beq, Dict, lookup, lookup_or,
}
use auto_lfs_builder.Text.{Text, codes, lstrip_by}
use auto_lfs_builder.KernelConfig.Stack.{Key, symbol, number, key_eq, key_beq, ok}
use auto_lfs_builder.KernelConfig.Entry.{Entry, Comment}
use auto_lfs_builder.KernelConfig.Mark.{index_ikey, mark_all, no_dep}
use auto_lfs_builder.KernelConfig.Layout.{
  Row, lfs, strip_initials, is_initial, padded, used, shorten, line_of, max_val_len, comment_lines,
}
use auto_lfs_builder.KernelConfig.Program.{screen, shown_rows}
use auto_lfs_builder.KernelConfig.Visible.{visible}
use auto_lfs_builder.KernelConfig.Columns.{IsScreenLine, Seen, lfs-IsSound, line_of-IsScreenLine}
use auto_lfs_builder.KernelConfig.Selected.{IsSelected, mark_all-IsSelected}
use auto_lfs_builder.KernelConfig.Evolution.{DependsOn, PointsBack}
use auto_lfs_builder.KernelConfig.Copies.Blfs
use auto_lfs_builder.KernelConfig.Copies.Agreement.{IsCommon, screen-copied}
use auto_lfs_builder.KernelConfig.Samples.{files, known_config, entries, end}
use auto_lfs_builder.KernelConfig.Load.{load_kconfig}

program : Unit {0}
unfolding list_beq lookup lookup_or key_beq index_ikey mark_all no_dep padded shorten line_of
    strip_initials is_initial lstrip_by max_val_len comment_lines
program = tt

abbrev graphics : Row
graphics = record {
  i0 = 2;
  val = codes "<*/M>";
  i1 = 0;
  title = codes "Graphics";
  arrow = [];
  key = symbol (codes "DRM");
  menu = 2;
  comment = none;
}

abbrev longest : Dict ℕ ℕ
longest = (2, 5) ∷ []

abbrev graphics_line : Text
graphics_line =
    codes
      "  &lt;*/M&gt; <emphasis role='blue'>G</emphasis>raphics                                                           [DRM]"

line_of-graphics : line_of lfs longest graphics ≡ ok graphics_line
unfolding program
line_of-graphics = refl

graphics-Seen : Seen longest graphics
unfolding program
graphics-Seen = record { title = omega arith; val = omega arith; arrow = tt; key = omega arith }

graphics-room : used graphics (padded longest graphics) + 3 ≤ 80
unfolding program
graphics-room = omega arith

line_of-IsScreenLine_example : IsScreenLine (visible graphics_line)
line_of-IsScreenLine_example =
    line_of-IsScreenLine lfs longest graphics graphics_line lfs-IsSound graphics-Seen graphics-room
      (omega arith) line_of-graphics

-- The entries after the counting: the menu is marked as used.
abbrev counted : List Entry
counted =
    record {
      ind0 = 0;
      val = some [];
      ind1 = 0;
      title = some (codes "Drivers");
      arrow = codes " --->";
      internal_key = number 2;
      menu = 0;
      comment = none;
    }
    ∷ record {
      ind0 = 2;
      val = some (codes "<*/M>");
      ind1 = 0;
      title = some (codes "Graphics");
      arrow = [];
      internal_key = symbol (codes "DRM");
      menu = 2;
      comment = none;
    }
    ∷ record {
      ind0 = 2;
      val = some (codes "{M}");
      ind1 = 2;
      title = some (codes "Intel");
      arrow = [];
      internal_key = symbol (codes "DRM_I915");
      menu = 2;
      comment = none;
    }
    ∷ []

mark_all-entries : mark_all end.main_dep entries ≡ ok counted
unfolding program
mark_all-entries = refl

some-injective {ℓ} : {A : Type ℓ} {a b : A} → some a ≡ some b → a ≡ b
some-injective h = cc h

-- The dependence of one entry, from what its key is bound to and where that stands.
stands_before :
    (fa fa' : Key) (j j' : ℕ)
    → some fa' ≡ some fa
    → lookup fa' (index_ikey 0 entries) ≡ some j'
    → lookup fa (index_ikey 0 entries) ≡ some j
    → j' ≡ j
stands_before fa fa' j j' p q r = cc (p, q, r)

entries-PointsBack : PointsBack (index_ikey 0 entries) end.main_dep entries
unfolding program
entries-PointsBack zero j entry fa at d =
    subst (λ e. DependsOn (index_ikey 0 entries) end.main_dep e fa j → j < 0) (some-injective at)
      (λ (bound, given, found). cc bound) d
entries-PointsBack (suc zero) j entry fa at d =
    subst (λ e. DependsOn (index_ikey 0 entries) end.main_dep e fa j → j < 1) (some-injective at)
      (λ (bound, given, found).
        subst (λ k. k < 1) (stands_before fa (number 2) j 0 bound refl found) (omega arith))
      d
entries-PointsBack (suc (suc zero)) j entry fa at d =
    subst (λ e. DependsOn (index_ikey 0 entries) end.main_dep e fa j → j < 2) (some-injective at)
      (λ (bound, given, found).
        subst (λ k. k < 2) (stands_before fa (symbol (codes "DRM")) j 1 bound refl found)
          (omega arith))
      d
entries-PointsBack (suc (suc (suc i))) j entry fa at d = cc at

intel-DependsOn :
    (entry : Entry)
    → get_elem? counted 2 ≡ some entry
    → DependsOn (index_ikey 0 entries) end.main_dep entry (symbol (codes "DRM")) 1
unfolding program
intel-DependsOn entry at =
    subst (λ e. DependsOn (index_ikey 0 entries) end.main_dep e (symbol (codes "DRM")) 1)
      (some-injective at) (refl, refl, refl)

abbrev intel : Entry
intel = record {
  ind0 = 2;
  val = some (codes "{M}");
  ind1 = 2;
  title = some (codes "Intel");
  arrow = [];
  internal_key = symbol (codes "DRM_I915");
  menu = 2;
  comment = none;
}

intel-val : intel.val ≢ none
intel-val e = cc e

mark_all-IsSelected_example : IsSelected (index_ikey 0 entries) end.main_dep counted 1
mark_all-IsSelected_example =
    mark_all-IsSelected end.main_dep entries counted entries-PointsBack mark_all-entries 2 1 intel
      (symbol (codes "DRM")) refl intel-val (intel-DependsOn intel refl)

abbrev shown : List Row
shown =
    record {
      i0 = 0;
      val = [];
      i1 = 0;
      title = codes "Drivers";
      arrow = codes " --->";
      key = number 2;
      menu = 0;
      comment = none;
    }
    ∷ graphics
    ∷ record {
      i0 = 2;
      val = codes "{M}";
      i1 = 2;
      title = codes "Intel";
      arrow = [];
      key = symbol (codes "DRM_I915");
      menu = 2;
      comment = none;
    }
    ∷ []

screen_program : Unit {0}
unfolding program shown_rows load_kconfig key_beq
screen_program = tt

shown_rows-tree : shown_rows files known_config 2 ≡ ok shown
unfolding screen_program
shown_rows-tree = refl

no_comment : (c : Comment) → none ≡ some c → All (λ line. line ≢ []) (comment_lines c)
no_comment c e = cc e

shown-IsCommon : All (IsCommon (max_val_len [] shown)) shown
unfolding screen_program
shown-IsCommon = (
  record { title = λ q. (b'D', codes "rivers", refl, refl); comment = no_comment },
  (
    record { title = λ q. (b'G', codes "raphics", refl, refl); comment = no_comment },
    (record { title = λ q. (b'I', codes "ntel", refl, refl); comment = no_comment }, tt),
  ),
)

shown_unique : (r : List Row) → shown_rows files known_config 2 ≡ ok r → shown ≡ r
shown_unique r h = cc (h, shown_rows-tree)

screen-copied_example : Blfs.screen files known_config 2 ≡ screen lfs files known_config 2
screen-copied_example =
    screen-copied files known_config 2
      (λ r h. subst (λ rs. All (IsCommon (max_val_len [] rs)) rs) (shown_unique r h) shown-IsCommon)
