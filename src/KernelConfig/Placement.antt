-- ===== src/KernelConfig/Placement.antt =====
-- Where `parse_config` of kernel-config.py puts an entry.
use auto_lfs_builder.Prelude.{
  ◌+◌, ◌-◌, ◌≡◌, inl, inr, refl, ap, subst, ◌∙◌, List, [], ◌∷◌, ◌++◌, Bool, true, false, not,
  Option, nat_eq, list_eq, Dict, arith, Bool-cases, contains, All,
}
use auto_lfs_builder.Text.{Text, codes}
use auto_lfs_builder.KernelConfig.Stack.{
  Frame, State, ok, pop_stack, pop_frames, pop_stack_while, Key, cur_menu, push_frame,
  has_choice_bit,
}
use auto_lfs_builder.KernelConfig.Entry.{
  Entry, Setting, Scan, place, settle, setting_of, show_setting, or_default, or_menu_id,
  note_main_dep, count_menu,
}
use auto_lfs_builder.KernelConfig.Balance.{IsBalanced, sum_i0, sum_i1, After, After-bind, After-any}

-- The first frame, if there is one, that fails the condition.
abbrev pub StopsAt : (Text → Bool) → List Frame → Type 0
StopsAt cond [] = Unit
StopsAt cond (top ∷ frames) = cond top.key ≡ false

-- The state without the frames on top that pass the condition.
pub record IsPopped (cond : Text → Bool) (s s' : State) : Type 0 where
  pub popped : List Frame
  pub split : s.stack ≡ popped ++ s'.stack
  pub passed : All (λ f. cond f.key ≡ true) popped
  pub stops : StopsAt cond s'.stack
  -- Nothing is lost of the indentations.
  pub first : s.ind0 ≡ sum_i0 popped + s'.ind0
  pub second : s.ind1 ≡ sum_i1 popped + s'.ind1

-- The state behind the pop of one frame.
abbrev without : Frame → List Frame → State → State
without top frames s = record s { stack = frames; ind0 = s.ind0 - top.i0; ind1 = s.ind1 - top.i1 }

pop_frames-cons :
    (cond : Text → Bool) (top : Frame) (frames : List Frame) (s : State)
    → cond top.key ≡ true
    → s.stack ≡ top ∷ frames
    → pop_frames cond (top ∷ frames) s ≡ pop_frames cond frames (without top frames s)
unfolding pop_frames pop_stack
pop_frames-cons cond top frames s q e = ground (arith, q, e)

pop_frames-IsPopped :
    (cond : Text → Bool) (frames : List Frame) (s : State)
    → s.stack ≡ frames
    → IsBalanced s
    → (s' : State) × (pop_frames cond frames s ≡ ok s') × IsPopped cond s s'
unfolding pop_frames pop_stack
pop_frames-IsPopped cond [] s e b = (
  s,
  refl,
  record {
    popped = [];
    split = refl;
    passed = tt;
    stops = rw e tt;
    first = omega arith;
    second = omega arith;
  },
)
pop_frames-IsPopped cond (top ∷ frames) s e b = elim (Bool-cases (cond top.key)) [
  | inr q ↦ (
    s,
    ground (arith, q),
    record {
      popped = [];
      split = refl;
      passed = tt;
      stops = rw e q;
      first = omega arith;
      second = omega arith;
    },
  )
  | inl q ↦
      let i = b.first ∙ ap sum_i0 e in
      let j = b.second ∙ ap sum_i1 e in
      let (s', r, p) =
        pop_frames-IsPopped cond frames (without top frames s) refl
          (record { first = omega (arith, i); second = omega (arith, j) }) in
      (
        s',
        pop_frames-cons cond top frames s q e ∙ r,
        record {
          popped = top ∷ p.popped;
          split = e ∙ ap (λ fs. top ∷ fs) p.split;
          passed = (q, p.passed);
          stops = p.stops;
          first = omega (arith, i, p.first);
          second = omega (arith, j, p.second);
        },
      )
]

-- From a state whose indentations are the sums over its stack, `pop_stack_while` raises nothing: it
-- removes the frames on top that pass the test, up to the first that fails it, and takes exactly
-- what they add off the indentations.
pub pop_stack_while-IsPopped :
    (cond : Text → Bool) (s : State)
    → IsBalanced s
    → (s' : State) × (pop_stack_while cond s ≡ ok s') × IsPopped cond s s'
unfolding pop_stack_while
pop_stack_while-IsPopped cond s b = pop_frames-IsPopped cond s.stack s refl b

-- What an entry tells of the state that it is placed in, and the frame that it leaves there.
pub record IsPlaced (s : State) (entry : Entry) (s' : State) : Type 0 where
  pub first : entry.ind0 ≡ s.ind0
  pub second : entry.ind1 ≡ s.ind1
  pub menu : entry.menu ≡ cur_menu s
  pub frame : Frame
  pub pushed : s'.stack ≡ frame ∷ s.stack

abbrev IsPlacedPair : State → Entry × State → Type 0
IsPlacedPair s (entry, s') = IsPlaced s entry s'

settle-IsPlaced :
    (known_config : Dict Text Setting) (is_menu is_choice : Bool) (key : Option Text) (scan : Scan)
    (s : State)
    → After (IsPlacedPair s) (settle known_config is_menu is_choice key scan s)
unfolding settle push_frame
settle-IsPlaced known_config is_menu is_choice key scan s =
    After-bind (λ _. Unit {0}) (IsPlacedPair s) (setting_of known_config key) _
      (After-any (setting_of known_config key))
      (λ (val, comment, forced) _.
        After-bind (λ _. Unit {0}) (IsPlacedPair s)
          (show_setting (has_choice_bit (cur_menu s)) (or_default scan.klass (codes "string"))
            forced key val)
          _ (After-any _)
          (λ shown _. record {
            first = refl;
            second = refl;
            menu = refl;
            frame = _;
            pushed = refl;
          }))

-- The number of the menu and `main_dep` do not matter to the place.
count_menu-IsPlaced :
    (is_menu : Bool) (key : Key) (s : State) (r : Entry × State)
    → IsPlacedPair (note_main_dep key (count_menu is_menu s)) r
    → IsPlacedPair s r
unfolding count_menu note_main_dep cur_menu
count_menu-IsPlaced true key s r p = record {
  first = p.first;
  second = p.second;
  menu = p.menu;
  frame = p.frame;
  pushed = p.pushed;
}
count_menu-IsPlaced false key s r p = record {
  first = p.first;
  second = p.second;
  menu = p.menu;
  frame = p.frame;
  pushed = p.pushed;
}

-- An entry that is returned stands below the first frame that is among its conditions: the frames
-- on top of it are popped, the entry has the indentations and the menu of what is left, and its own
-- frame is pushed onto that.
pub place-IsPlaced :
    (known_config : Dict Text Setting) (is_menu is_choice : Bool) (key : Option Text) (scan : Scan)
    (s : State) (entry : Entry) (s' : State)
    → IsBalanced s
    → place known_config is_menu is_choice key scan s ≡ ok (entry, s')
    → (below : State) × IsPopped (λ x. not (contains x scan.deps)) s below × IsPlaced below entry s'
unfolding place
place-IsPlaced known_config is_menu is_choice key scan s entry s' b e =
    let (below, q, p) = pop_stack_while-IsPopped (λ x. not (contains x scan.deps)) s b in
    let counted = count_menu is_menu below in
    let noted = note_main_dep (or_menu_id key counted) counted in
    let settled : settle known_config is_menu is_choice key scan noted ≡ ok (entry, s') =
      cc (q, e) in
    (
      below,
      p,
      count_menu-IsPlaced is_menu (or_menu_id key counted) below (entry, s')
          (subst (After (IsPlacedPair noted)) settled
            (settle-IsPlaced known_config is_menu is_choice key scan noted)),
    )
