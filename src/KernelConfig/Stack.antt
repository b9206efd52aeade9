-- ===== src/KernelConfig/Stack.antt =====
-- The global variables of kernel-config.py and the functions on its stack.
use auto_lfs_builder.Prelude.{
  ◌≡◌, refl, ◌≡◌, ◌↔◌, Eq, list_beq, list_beq_iff, arith, ℕ, ◌+◌, ◌-◌, ◌/◌, ◌%◌, ◌^◌, List, [], ◌∷◌,
  Bool, true, false, Option, nat_eq, list_eq, ◌==◌, if◌then◌else◌,
}
use auto_lfs_builder.Text.{Text}

-- A key of `main_dep`: a symbol, or the number of a menu.
pub data Key : Type 0 where
  symbol : Text → Key
  number : ℕ → Key

unfoldable pub key_beq : Key → Key → Bool
unfolding list_beq
key_beq (symbol a) (symbol b) = a == b
key_beq (number m) (number n) = m == n
key_beq _ _ = false

pub key_beq_iff : (a b : Key) → (key_beq a b ≡ true) ↔ (a ≡ b)
unfolding key_beq
key_beq_iff (symbol a) (symbol b) = ground (arith, list_beq_iff a b)
key_beq_iff (number m) (number n) = ground (arith, nat_eq.beq_iff m n)
key_beq_iff (symbol a) (number n) = (λ h. cc, λ h. cc)
key_beq_iff (number m) (symbol b) = (λ h. cc, λ h. cc)

instance abbrev pub key_eq : Eq Key
key_eq = record { beq_iff = key_beq_iff; beq = key_beq }

-- An element `(key, i0, i1, menu)` of the stack.
pub record Frame : Type 0 where
  pub key : Text
  pub i0 : ℕ
  pub i1 : ℕ
  pub menu : ℕ

-- The global variables that change. The lists `stack` and `if_stack` have their last element, which
-- the source calls `[-1]`, in front; `main_dep` has its last assignment in front.
pub record State : Type 0 where
  pub ind0 : ℕ
  pub ind1 : ℕ
  pub menu_id : ℕ
  pub stack : List Frame
  pub if_stack : List (List Text)
  pub main_dep : List (Key × Key)

abbrev pub start : State
start = record { ind0 = 0; ind1 = 0; menu_id = 1; stack = []; if_stack = []; main_dep = [] }

pub data Exception : Type 0 where
  assertion_error index_error : Exception
  -- `open` of a file that is not there
  no_file : Text → Exception
  -- `raise Exception('unknown setting ...')`
  unknown_setting : ℕ → Option Text → Exception
  -- `val['value']` of a table without a value
  no_value : Exception
  -- `index_ikey[fa]` of a key that no entry has
  key_error : Key → Exception
  -- `raise Exception('[%s] needs unselected [%s]')` and `raise Exception("%s seems not exist")`
  needs_unselected : Key → Key → Exception
  seems_not_exist : Text → Exception
  -- No outcome of the source: the bound on nested files is met.
  out_of_fuel : Exception

pub data Result {ℓ} (A : Type ℓ) : Type ℓ where
  ok : A → Result A
  raise : Exception → Result A

infixl 5 ◌>>=◌
abbrev pub ◌>>=◌ {ℓ κ} : {A : Type ℓ} {B : Type κ} → Result A → (A → Result B) → Result B
ok a >>= f = f a
raise e >>= f = raise e

-- What returned did so in its first step and then in the rest.
pub steps {ℓ κ} :
    {B : Type ℓ} {C : Type κ} (first : Result B) (rest : B → Result C) {end : C}
    → (first >>= rest) ≡ ok end
    → (between : B) × (first ≡ ok between) × (rest between ≡ ok end)
steps (raise reason) rest ended = cc ended
steps (ok between) rest ended = (between, refl, ended)

abbrev pub choice_bit : ℕ
choice_bit = 2 ^ 30

-- `menu & choice_bit`, `menu & ~choice_bit` and `menu | choice_bit`
abbrev pub has_choice_bit : ℕ → Bool
has_choice_bit menu = (menu / choice_bit) % 2 == 1

abbrev pub clear_choice_bit : ℕ → ℕ
clear_choice_bit menu = if has_choice_bit menu then menu - choice_bit else menu

abbrev pub set_choice_bit : ℕ → ℕ
set_choice_bit menu = if has_choice_bit menu then menu else menu + choice_bit

-- The difference of the indentations never stops at 0, since they are sums over the stack.
unfoldable pub pop_stack : (Text → Bool) → State → Result State
pop_stack cond s = elim s.stack [
  | [] ↦ raise index_error
  | top ∷ frames ↦
      if cond top.key
      then ok (record s { stack = frames; ind0 = s.ind0 - top.i0; ind1 = s.ind1 - top.i1 })
      else raise assertion_error
]

-- The loop of `pop_stack_while`, over the frames of the stack.
unfoldable pub pop_frames : (Text → Bool) → List Frame → State → Result State
unfolding pop_stack
pop_frames cond [] s = ok s
pop_frames cond (top ∷ frames) s = elim (cond top.key) [
  | false ↦ ok s
  | true ↦ do s' ← pop_stack cond s; pop_frames cond frames s'
]

unfoldable pub pop_stack_while : (Text → Bool) → State → Result State
unfolding pop_frames
pop_stack_while cond s = pop_frames cond s.stack s

unfoldable pub cur_menu : State → ℕ
cur_menu s = elim s.stack [ [] ↦ 0 | top ∷ frames ↦ top.menu ]

unfoldable pub cur_if : State → List Text
cur_if s = elim s.if_stack [ [] ↦ [] | top ∷ conditions ↦ top ]

unfoldable pub push_frame : Frame → State → State
push_frame frame s = record s {
  stack = frame ∷ s.stack;
  ind0 = s.ind0 + frame.i0;
  ind1 = s.ind1 + frame.i1;
}
