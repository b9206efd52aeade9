-- ===== src/KernelConfig/Ending.antt =====
-- The bound on nested files of `load_kconfig`: how deep the files source each other is enough.
use auto_lfs_builder.Prelude.{
  ℕ, zero, suc, ◌<◌, ◌≡◌, ◌≢◌, inl, inr, refl, sym, ap, ◌∙◌, List, [], ◌∷◌, ◌++◌, All, Bool, not,
  ◌&&◌, Option, none, some, nat_eq, list_eq, Dict, arith, Bool-cases, Option-cases, contains,
}
use auto_lfs_builder.Text.{Text, codes, is_nil}
use auto_lfs_builder.KernelConfig.Stack.{
  Frame, State, Result, ok, raise, ◌>>=◌, no_file, out_of_fuel, pop_stack, pop_frames,
  pop_stack_while, cur_menu, has_choice_bit,
}
use auto_lfs_builder.KernelConfig.Entry.{
  Entry, Setting, Scan, Forced, place, parse_config, setting_of, show_setting, show_choice,
  or_default, or_menu_id, note_main_dep, count_menu, settle, key_of, is_nonconfig_menu_line,
  is_menu_line, is_choice_line, scan_lines, scan_start,
}
use auto_lfs_builder.KernelConfig.Load.{
  file_lines, is_indented, is_menu_key, close_menu, source_name, flush, act, Directive, source,
  config, endmenu, if_, endif, other, directive_of, load_lines, load_kconfig,
}

abbrev Ends {ℓ} : {A : Type ℓ} → Result A → Type ℓ
Ends m = m ≢ raise out_of_fuel

Ends-bind {ℓ κ} :
    {A : Type ℓ} {B : Type κ} (m : Result A) (f : A → Result B)
    → Ends m
    → ((a : A) → m ≡ ok a → Ends (f a))
    → Ends (m >>= f)
Ends-bind (ok a) f h k = k a refl
Ends-bind (raise e) f h k = λ q. h (cc q)

pop_stack-Ends : (cond : Text → Bool) (s : State) → Ends (pop_stack cond s)
unfolding pop_stack
pop_stack-Ends cond s = ground arith

pop_frames-Ends :
    (cond : Text → Bool) (frames : List Frame) (s : State) → Ends (pop_frames cond frames s)
unfolding pop_frames
pop_frames-Ends cond [] s = λ q. cc q
pop_frames-Ends cond (top ∷ frames) s = elim (Bool-cases (cond top.key)) [
  | inl q ↦
      rw (q, pop_frames)
        (Ends-bind (pop_stack cond s) (pop_frames cond frames) (pop_stack-Ends cond s)
          (λ s' _. pop_frames-Ends cond frames s'))
  | inr q ↦ ground (arith, q)
]

setting_of-Ends :
    (known_config : Dict Text Setting) (key : Option Text) → Ends (setting_of known_config key)
unfolding setting_of
setting_of-Ends known_config none = λ q. cc q
setting_of-Ends known_config (some key) = ground arith

show_setting-Ends :
    (in_choice : Bool) (klass : Text) (forced : Option Forced) (key val : Option Text)
    → Ends (show_setting in_choice klass forced key val)
unfolding show_setting show_choice
show_setting-Ends in_choice klass forced key none = λ q. cc q
show_setting-Ends in_choice klass forced key (some val) = ground arith

key_of-Ends : (b : Bool) (head : Text) → Ends (key_of b head)
unfolding key_of
key_of-Ends b head = ground arith

source_name-Ends : (line : Text) → Ends (source_name line)
unfolding source_name
source_name-Ends line = ground arith

settle-Ends :
    (known_config : Dict Text Setting) (is_menu is_choice : Bool) (key : Option Text) (scan : Scan)
    (s : State)
    → Ends (settle known_config is_menu is_choice key scan s)
unfolding settle
settle-Ends known_config is_menu is_choice key scan s =
    Ends-bind (setting_of known_config key) _ (setting_of-Ends known_config key)
      (λ (val, comment, forced) _.
        Ends-bind
          (show_setting (has_choice_bit (cur_menu s)) (or_default scan.klass (codes "string"))
            forced key val)
          _
          (show_setting-Ends (has_choice_bit (cur_menu s)) (or_default scan.klass (codes "string"))
            forced key val)
          (λ shown _ q. cc q))

parse_config-Ends :
    (known_config : Dict Text Setting) (head : Text) (rest : List Text) (s : State)
    → Ends (parse_config known_config head rest s)
unfolding parse_config place pop_stack_while
parse_config-Ends known_config head rest s =
    let scan = scan_lines rest (scan_start head s) in
    Ends-bind (key_of (is_nonconfig_menu_line head) head) _
      (key_of-Ends (is_nonconfig_menu_line head) head)
      (λ key _.
        Ends-bind (pop_frames (λ x. not (contains x scan.deps)) s.stack s) _
          (pop_frames-Ends (λ x. not (contains x scan.deps)) s.stack s)
          (λ popped _. settle-Ends known_config (is_menu_line head) (is_choice_line head) key scan (
            note_main_dep (or_menu_id key (count_menu (is_menu_line head) popped))
              (count_menu (is_menu_line head) popped))))

close_menu-Ends : (s : State) → Ends (close_menu s)
unfolding close_menu pop_stack_while
close_menu-Ends s =
    Ends-bind (pop_frames (λ x. not (is_menu_key x)) s.stack s) (pop_stack is_menu_key)
      (pop_frames-Ends (λ x. not (is_menu_key x)) s.stack s) (λ s' _. pop_stack-Ends is_menu_key s')

-- A `source` line names a file of a rank below the bound.
abbrev pub SourcesBelow : (Text → ℕ) → ℕ → Text → Type 0
SourcesBelow rank n line =
    (sub : Text) → directive_of line ≡ source → source_name line ≡ ok sub → rank sub < n

-- Every file sources files of lower rank only.
abbrev pub IsRanked : (Text → Option Text) → (Text → ℕ) → Type 0
IsRanked files rank =
    (file text : Text)
    → files file ≡ some text
    → All (SourcesBelow rank (rank file)) (file_lines text)

module _ (files : Text → Option Text) (known_config : Dict Text Setting) (rank : Text → ℕ) where
  flush-Ends : (config_buf : List Text) (s : State) → Ends (flush files known_config config_buf s)
  unfolding flush
  flush-Ends [] s = λ q. cc q
  flush-Ends (head ∷ rest) s =
      Ends-bind (parse_config known_config head rest s) _
        (parse_config-Ends known_config head rest s) (λ (entry, s') _ q. cc q)

  act-Ends :
      (load : Text → State → Result (List Entry × State)) (n : ℕ) (d : Directive) (line : Text)
      (s : State)
      → ((sub : Text) → rank sub < n → (t : State) → Ends (load sub t))
      → directive_of line ≡ d
      → SourcesBelow rank n line
      → Ends (act files known_config load d line s)
  unfolding act
  act-Ends load n source line s ends e below =
      Ends-bind (source_name line) _ (source_name-Ends line) (λ sub named.
        Ends-bind (load sub s) _ (ends sub (below sub e named) s) (λ (r, s') _ q. cc q))
  act-Ends load n config line s ends e below = λ q. cc q
  act-Ends load n endmenu line s ends e below =
      Ends-bind (close_menu s) _ (close_menu-Ends s) (λ s' _ q. cc q)
  act-Ends load n if_ line s ends e below = λ q. cc q
  act-Ends load n endif line s ends e below = λ q. cc q
  act-Ends load n other line s ends e below = λ q. cc q

  load_lines-Ends :
      (load : Text → State → Result (List Entry × State)) (n : ℕ) (lines config_buf : List Text)
      (s : State)
      → ((sub : Text) → rank sub < n → (t : State) → Ends (load sub t))
      → All (SourcesBelow rank n) lines
      → Ends (load_lines files known_config load lines config_buf s)
  unfolding load_lines
  load_lines-Ends load n [] config_buf s ends below = flush-Ends config_buf s
  load_lines-Ends load n (line ∷ lines) config_buf s ends below =
      elim (Bool-cases (not (is_nil config_buf) && is_indented line)) [
        | inl q ↦
            rw (q, load_lines)
              (load_lines-Ends load n lines (config_buf ++ line ∷ []) s ends below.1)
        | inr q ↦
            rw (q, load_lines)
              (Ends-bind (flush files known_config config_buf s) _ (flush-Ends config_buf s)
                (λ (before, s1) _.
                  Ends-bind (act files known_config load (directive_of line) line s1) _
                    (act-Ends load n (directive_of line) line s1 ends refl below.0)
                    (λ (sourced, buf, s2) _.
                      Ends-bind (load_lines files known_config load lines buf s2) _
                        (load_lines-Ends load n lines buf s2 ends below.1)
                        (λ (after, s3) _ z. cc z))))
      ]

  load_kconfig-suc :
      (fuel : ℕ) (file text : Text) (s : State)
      → files file ≡ some text
      → load_kconfig files known_config (suc fuel) file s
        ≡ load_lines files known_config
            (load_kconfig files known_config fuel)
            (file_lines text)
            []
            s
  unfolding load_kconfig
  load_kconfig-suc fuel file text s e =
      ap
        (λ o. elim o as (λ _. Result (List Entry × State)) [
          | none ↦ raise (no_file file)
          | some text ↦
              load_lines files known_config (load_kconfig files known_config fuel) (file_lines text)
                [] s
        ])
        e

  -- If every file sources files of lower rank only, a bound above the rank of the file is enough:
  -- reading it ends with entries or with an exception of the source.
  pub load_kconfig-IsRanked :
      (fuel : ℕ) (file : Text) (s : State)
      → IsRanked files rank
      → rank file < fuel
      → load_kconfig files known_config fuel file s ≢ raise out_of_fuel
  unfolding load_kconfig
  load_kconfig-IsRanked zero file s ranked small = absurd (omega (arith, small))
  load_kconfig-IsRanked (suc fuel) file s ranked small = elim (Option-cases (files file)) [
    | inl e ↦ ground (arith, e)
    | inr (text, e) ↦ λ q.
        load_lines-Ends (load_kconfig files known_config fuel) (rank file) (file_lines text) [] s
          (λ sub lower t. load_kconfig-IsRanked fuel sub t ranked (omega (arith, lower, small)))
          (ranked file text e) (sym (load_kconfig-suc fuel file text s e) ∙ q)
  ]
