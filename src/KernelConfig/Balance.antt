-- ===== src/KernelConfig/Balance.antt =====
-- The indentations of kernel-config.py are sums over its stack.
use auto_lfs_builder.Prelude.{
  ℕ, zero, suc, ◌+◌, ◌≡◌, inl, inr, ap, subst, Option-cases, ◌∙◌, List, [], ◌∷◌, ◌++◌, Bool, true,
  false, not, ◌&&◌, Option, nat_eq, list_eq, Dict, arith, Bool-cases, List-cases, contains,
}
use auto_lfs_builder.Text.{Text, codes, is_nil}
use auto_lfs_builder.KernelConfig.Stack.{
  Key, Frame, State, Result, ok, raise, ◌>>=◌, pop_stack, pop_frames, pop_stack_while, push_frame,
  cur_menu, has_choice_bit,
}
use auto_lfs_builder.KernelConfig.Entry.{
  Entry, Setting, Scan, note_main_dep, or_menu_id, or_default, place, parse_config, setting_of,
  show_setting, shown_title, frame_of, key_of, count_menu, settle, is_nonconfig_menu_line,
  is_menu_line, is_choice_line, scan_lines, scan_start,
}
use auto_lfs_builder.KernelConfig.Load.{
  file_lines, is_indented, is_menu_key, close_menu, open_if, close_if, source_name, flush, act,
  Directive, source, config, endmenu, if_, endif, other, directive_of, load_lines, load_kconfig,
}

-- What holds of the value, if there is one.
abbrev pub After {ℓ κ} : {A : Type ℓ} → (A → Type κ) → Result A → Type κ
After P (ok a) = P a
After P (raise e) = Unit

pub After-bind {ℓ κ μ ν} :
    {A : Type ℓ} {B : Type κ} (P : A → Type μ) (Q : B → Type ν) (m : Result A) (f : A → Result B)
    → After P m
    → ((a : A) → P a → After Q (f a))
    → After Q (m >>= f)
After-bind P Q (ok a) f h k = k a h
After-bind P Q (raise e) f h k = tt

pub After-any {ℓ} : {A : Type ℓ} (m : Result A) → After (λ a. Unit {0}) m
After-any (ok a) = tt
After-any (raise e) = tt

abbrev pub sum_i0 : List Frame → ℕ
sum_i0 [] = 0
sum_i0 (f ∷ fs) = f.i0 + sum_i0 fs

abbrev pub sum_i1 : List Frame → ℕ
sum_i1 [] = 0
sum_i1 (f ∷ fs) = f.i1 + sum_i1 fs

-- Both indentations are the sums of what the frames on the stack add.
pub record IsBalanced (s : State) : Type 0 where
  pub first : s.ind0 ≡ sum_i0 s.stack
  pub second : s.ind1 ≡ sum_i1 s.stack

-- An entry may come with the state.
abbrev HasBalanced {ℓ} : {A : Type ℓ} → A × State → Type 0
HasBalanced (a, s) = IsBalanced s

pop_stack-IsBalanced :
    (cond : Text → Bool) (s : State) → IsBalanced s → After IsBalanced (pop_stack cond s)
unfolding pop_stack
pop_stack-IsBalanced cond s b = elim (List-cases s.stack) [
  | inl e ↦ rw (e, After) tt
  | inr (top, frames, e) ↦ elim (Bool-cases (cond top.key)) [
    | inl q ↦
        let i = b.first ∙ ap sum_i0 e in
        let j = b.second ∙ ap sum_i1 e in
        rw (e, q, After) (record { first = omega (arith, i); second = omega (arith, j) })
    | inr q ↦ rw (e, q, After) tt
  ]
]

pop_frames-IsBalanced :
    (cond : Text → Bool) (frames : List Frame) (s : State)
    → IsBalanced s
    → After IsBalanced (pop_frames cond frames s)
unfolding pop_frames
pop_frames-IsBalanced cond [] s b = b
pop_frames-IsBalanced cond (top ∷ frames) s b = elim (Bool-cases (cond top.key)) [
  | inl q ↦
      rw (q, After)
        (After-bind IsBalanced IsBalanced (pop_stack cond s) (pop_frames cond frames)
          (pop_stack-IsBalanced cond s b) (λ s' b'. pop_frames-IsBalanced cond frames s' b'))
  | inr q ↦ rw (q, After) b
]

pop_stack_while-IsBalanced :
    (cond : Text → Bool) (s : State) → IsBalanced s → After IsBalanced (pop_stack_while cond s)
unfolding pop_stack_while
pop_stack_while-IsBalanced cond s b = pop_frames-IsBalanced cond s.stack s b

push_frame-IsBalanced : (f : Frame) (s : State) → IsBalanced s → IsBalanced (push_frame f s)
unfolding push_frame
push_frame-IsBalanced f s b = record {
  first = omega (arith, b.first);
  second = omega (arith, b.second);
}

close_menu-IsBalanced : (s : State) → IsBalanced s → After IsBalanced (close_menu s)
unfolding close_menu
close_menu-IsBalanced s b =
    After-bind IsBalanced IsBalanced (pop_stack_while (λ x. not (is_menu_key x)) s)
      (pop_stack is_menu_key) (pop_stack_while-IsBalanced (λ x. not (is_menu_key x)) s b)
      (pop_stack-IsBalanced is_menu_key)

note_main_dep-IsBalanced : (key : Key) (s : State) → IsBalanced s → IsBalanced (note_main_dep key s)
unfolding note_main_dep
note_main_dep-IsBalanced key s b = record { first = b.first; second = b.second }

count_menu-IsBalanced : (b : Bool) (s : State) → IsBalanced s → IsBalanced (count_menu b s)
unfolding count_menu
count_menu-IsBalanced true s b = record { first = b.first; second = b.second }
count_menu-IsBalanced false s b = b

settle-HasBalanced :
    (known_config : Dict Text Setting) (is_menu is_choice : Bool) (key : Option Text) (scan : Scan)
    (s : State)
    → IsBalanced s
    → After HasBalanced (settle known_config is_menu is_choice key scan s)
unfolding settle
settle-HasBalanced known_config is_menu is_choice key scan s b =
    After-bind (λ _. Unit {0}) HasBalanced (setting_of known_config key) _
      (After-any (setting_of known_config key))
      (λ (val, comment, forced) _.
        After-bind (λ _. Unit {0}) HasBalanced
          (show_setting (has_choice_bit (cur_menu s)) (or_default scan.klass (codes "string"))
            forced key val)
          _ (After-any _)
          (λ shown _.
            push_frame-IsBalanced (frame_of is_menu is_choice key (shown_title scan.title) s) s b))

place-HasBalanced :
    (known_config : Dict Text Setting) (is_menu is_choice : Bool) (key : Option Text) (scan : Scan)
    (s : State)
    → IsBalanced s
    → After HasBalanced (place known_config is_menu is_choice key scan s)
unfolding place
place-HasBalanced known_config is_menu is_choice key scan s b =
    After-bind IsBalanced HasBalanced (pop_stack_while (λ x. not (contains x scan.deps)) s) _
      (pop_stack_while-IsBalanced (λ x. not (contains x scan.deps)) s b)
      (λ popped p. settle-HasBalanced known_config is_menu is_choice key scan _ (
        note_main_dep-IsBalanced (or_menu_id key (count_menu is_menu popped))
          (count_menu is_menu popped) (count_menu-IsBalanced is_menu popped p)))

parse_config-HasBalanced :
    (known_config : Dict Text Setting) (head : Text) (rest : List Text) (s : State)
    → IsBalanced s
    → After HasBalanced (parse_config known_config head rest s)
unfolding parse_config
parse_config-HasBalanced known_config head rest s b =
    After-bind (λ _. Unit {0}) HasBalanced (key_of (is_nonconfig_menu_line head) head) _
      (After-any (key_of (is_nonconfig_menu_line head) head))
      (λ key _.
        place-HasBalanced known_config (is_menu_line head) (is_choice_line head) key
          (scan_lines rest (scan_start head s)) s b)

open_if-IsBalanced : (line : Text) (s : State) → IsBalanced s → IsBalanced (open_if line s)
unfolding open_if
open_if-IsBalanced line s b = record { first = b.first; second = b.second }

close_if-IsBalanced : (s : State) → IsBalanced s → IsBalanced (close_if s)
unfolding close_if
close_if-IsBalanced s b = record { first = b.first; second = b.second }

module _ (files : Text → Option Text) (known_config : Dict Text Setting) where
  -- What a file that is sourced keeps.
  abbrev Keeps : (Text → State → Result (List Entry × State)) → Type 0
  Keeps load = (file : Text) (s : State) → IsBalanced s → After HasBalanced (load file s)

  flush-HasBalanced :
      (config_buf : List Text) (s : State)
      → IsBalanced s
      → After HasBalanced (flush files known_config config_buf s)
  unfolding flush
  flush-HasBalanced [] s b = b
  flush-HasBalanced (head ∷ rest) s b =
      After-bind HasBalanced HasBalanced (parse_config known_config head rest s) _
        (parse_config-HasBalanced known_config head rest s b) (λ (entry, s') b'. b')

  -- The state is the last part.
  abbrev LastBalanced : List Entry × List Text × State → Type 0
  LastBalanced (r, config_buf, s) = IsBalanced s

  act-IsBalanced :
      (load : Text → State → Result (List Entry × State)) (d : Directive) (line : Text) (s : State)
      → Keeps load
      → IsBalanced s
      → After LastBalanced (act files known_config load d line s)
  unfolding act
  act-IsBalanced load source line s keeps b =
      After-bind (λ _. Unit {0}) LastBalanced (source_name line) _ (After-any (source_name line))
        (λ sub _.
          After-bind HasBalanced LastBalanced (load sub s) _ (keeps sub s b) (λ (r, s') b'. b'))
  act-IsBalanced load config line s keeps b = b
  act-IsBalanced load endmenu line s keeps b =
      After-bind IsBalanced LastBalanced (close_menu s) _ (close_menu-IsBalanced s b) (λ s' b'. b')
  act-IsBalanced load if_ line s keeps b = open_if-IsBalanced line s b
  act-IsBalanced load endif line s keeps b = close_if-IsBalanced s b
  act-IsBalanced load other line s keeps b = b

  load_lines-HasBalanced :
      (load : Text → State → Result (List Entry × State)) (lines config_buf : List Text) (s : State)
      → Keeps load
      → IsBalanced s
      → After HasBalanced (load_lines files known_config load lines config_buf s)
  unfolding load_lines
  load_lines-HasBalanced load [] config_buf s keeps b = flush-HasBalanced config_buf s b
  load_lines-HasBalanced load (line ∷ lines) config_buf s keeps b =
      elim (Bool-cases (not (is_nil config_buf) && is_indented line)) [
        | inl q ↦
            rw (q, After) (load_lines-HasBalanced load lines (config_buf ++ line ∷ []) s keeps b)
        | inr q ↦
            rw (q, After)
              (After-bind HasBalanced HasBalanced (flush files known_config config_buf s) _
                (flush-HasBalanced config_buf s b)
                (λ (before, s1) b1.
                  After-bind LastBalanced HasBalanced
                    (act files known_config load (directive_of line) line s1) _
                    (act-IsBalanced load (directive_of line) line s1 keeps b1)
                    (λ (sourced, buf, s2) b2.
                      After-bind HasBalanced HasBalanced
                        (load_lines files known_config load lines buf s2) _
                        (load_lines-HasBalanced load lines buf s2 keeps b2)
                        (λ (after, s3) b3. b3))))
      ]

  load_kconfig-HasBalanced : (fuel : ℕ) → Keeps (load_kconfig files known_config fuel)
  unfolding load_kconfig
  load_kconfig-HasBalanced zero file s b = tt
  load_kconfig-HasBalanced (suc fuel) file s b = elim (Option-cases (files file)) [
    | inl e ↦ rw (e, After) tt
    | inr (text, e) ↦
        rw (e, After)
          (load_lines-HasBalanced (load_kconfig files known_config fuel) (file_lines text) [] s
            (load_kconfig-HasBalanced fuel) b)
  ]

  -- Whatever the files hold and however deep they source each other: once a file is read, the two
  -- indentations are still the sums of what the frames on the stack add to them, so that a pop
  -- never makes one negative.
  pub load_kconfig-IsBalanced :
      (fuel : ℕ) (file : Text) (s : State) (r : List Entry) (s' : State)
      → IsBalanced s
      → load_kconfig files known_config fuel file s ≡ ok (r, s')
      → IsBalanced s'
  load_kconfig-IsBalanced fuel file s r s' b e =
      subst (After HasBalanced) e (load_kconfig-HasBalanced fuel file s b)
