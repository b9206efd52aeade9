-- ===== src/Regex/Spelling.antt =====
-- What a match says of the text: the characters that it consumed are spelled by the pattern, and
-- what it leaves is the rest.
use auto_lfs_builder.Prelude.{
  ℕ, ◌≡◌, refl, ap, [], ◌∷◌, ◌++◌, Bool, true, false, Option, none, some, Bool-cases, if◌then◌else◌,
  inl, inr,
}
use auto_lfs_builder.Text.{Text}
use auto_lfs_builder.Regex.{at_start, one, many, lazily, capture, Pattern, Match}

-- `Spells r t g`: the pattern fits the whole of `t`, and the group holds `g`.
pub data Spells : Pattern → Text → Text → Type 0 where
  end : Spells [] [] []
  start : {r : Pattern} {t g : Text} → Spells r t g → Spells (at_start ∷ r) t g
  char :
      {p : ℕ → Bool} {r : Pattern} {c : ℕ} {t g : Text}
      → p c ≡ true
      → Spells r t g
      → Spells (one p ∷ r) (c ∷ t) g
  many_stop : {p : ℕ → Bool} {r : Pattern} {t g : Text} → Spells r t g → Spells (many p ∷ r) t g
  many_step :
      {p : ℕ → Bool} {r : Pattern} {c : ℕ} {t g : Text}
      → p c ≡ true
      → Spells (many p ∷ r) t g
      → Spells (many p ∷ r) (c ∷ t) g
  lazily_stop : {p : ℕ → Bool} {r : Pattern} {t g : Text} → Spells r t g → Spells (lazily p ∷ r) t g
  lazily_step :
      {p : ℕ → Bool} {r : Pattern} {c : ℕ} {t g : Text}
      → p c ≡ true
      → Spells (lazily p ∷ r) t g
      → Spells (lazily p ∷ r) (c ∷ t) g
  capture_stop :
      {p : ℕ → Bool} {r : Pattern} {t g : Text} → Spells r t g → Spells (capture p ∷ r) t []
  capture_step :
      {p : ℕ → Bool} {r : Pattern} {c : ℕ} {t g : Text}
      → p c ≡ true
      → Spells (capture p ∷ r) t g
      → Spells (capture p ∷ r) (c ∷ t) (c ∷ g)

-- The group, and what stands behind it.
pub capture-Spells :
    (p : ℕ → Bool) (r : Pattern) {t g : Text}
    → Spells (capture p ∷ r) t g
    → (v : Text) × (g' : Text) × (t ≡ g ++ v) × Spells r v g'
capture-Spells p r (capture_stop {t} {g} s) = (t, g, refl, s)
capture-Spells p r (capture_step {c} h s) =
    let (v, g', e, rest) = capture-Spells p r s in (v, g', ap (λ z. c ∷ z) e, rest)

pub record Fits (r : Pattern) (s : Text) (m : Match) : Type 0 where
  pub used : Text
  pub split : s ≡ used ++ m.rest
  pub spelled : Spells r used m.group

-- The result of a match attempt, if there is one, fits.
abbrev pub Sound : Pattern → Text → Option Match → Type 0
Sound r s none = Unit
Sound r s (some m) = Fits r s m

pub start-Sound :
    (r : Pattern) (s : Text) (m : Option Match) → Sound r s m → Sound (at_start ∷ r) s m
start-Sound r s none k = tt
start-Sound r s (some m) k = record { used = k.used; split = k.split; spelled = start k.spelled }

pub one-Sound :
    (p : ℕ → Bool) (r : Pattern) (c : ℕ) (s : Text) (m : Option Match)
    → Sound r s m
    → Sound (one p ∷ r) (c ∷ s) (if p c then m else none)
one-Sound p r c s none k = elim (Bool-cases (p c)) [ inl h ↦ rw h tt | inr h ↦ rw h tt ]
one-Sound p r c s (some m) k = elim (Bool-cases (p c)) [
  | inl h ↦
      rw h
        (record { used = c ∷ k.used; split = ap (λ t. c ∷ t) k.split; spelled = char h k.spelled })
  | inr h ↦ rw h tt
]

pub lazily_stop-Sound :
    (p : ℕ → Bool) (r : Pattern) (s : Text) (m : Option Match)
    → Sound r s m
    → Sound (lazily p ∷ r) s m
lazily_stop-Sound p r s none k = tt
lazily_stop-Sound p r s (some m) k = record {
  used = k.used;
  split = k.split;
  spelled = lazily_stop k.spelled;
}

pub capture_stop-Sound :
    (p : ℕ → Bool) (r : Pattern) (s : Text) (m : Option Match)
    → Sound r s m
    → Sound (capture p ∷ r) s (elim m [ none ↦ none | some m' ↦ some (record m' { group = [] }) ])
capture_stop-Sound p r s none k = tt
capture_stop-Sound p r s (some m) k = record {
  used = k.used;
  split = k.split;
  spelled = capture_stop k.spelled;
}

pub many-Sound :
    (p : ℕ → Bool) (r : Pattern) (c : ℕ) (s : Text) (longer shorter : Option Match)
    → p c ≡ true
    → Sound (many p ∷ r) s longer
    → Sound r (c ∷ s) shorter
    → Sound (many p ∷ r) (c ∷ s) (elim longer [ some m ↦ some m | none ↦ shorter ])
many-Sound p r c s (some m) shorter h l k = record {
  used = c ∷ l.used;
  split = ap (λ t. c ∷ t) l.split;
  spelled = many_step h l.spelled;
}
many-Sound p r c s none (some m) h l k = record {
  used = k.used;
  split = k.split;
  spelled = many_stop k.spelled;
}
many-Sound p r c s none none h l k = tt

pub many_stop-Sound :
    (p : ℕ → Bool) (r : Pattern) (s : Text) (m : Option Match)
    → Sound r s m
    → Sound (many p ∷ r) s m
many_stop-Sound p r s none k = tt
many_stop-Sound p r s (some m) k = record {
  used = k.used;
  split = k.split;
  spelled = many_stop k.spelled;
}

pub lazily-Sound :
    (p : ℕ → Bool) (r : Pattern) (c : ℕ) (s : Text) (longer shorter : Option Match)
    → Sound (lazily p ∷ r) s longer
    → Sound r (c ∷ s) shorter
    → Sound
        (lazily p ∷ r)
        (c ∷ s)
        (elim shorter [ some m ↦ some m | none ↦ elim (p c) [ true ↦ longer | false ↦ none ] ])
lazily-Sound p r c s longer (some m) l k = record {
  used = k.used;
  split = k.split;
  spelled = lazily_stop k.spelled;
}
lazily-Sound p r c s none none l k = elim (Bool-cases (p c)) [ inl h ↦ rw h tt | inr h ↦ rw h tt ]
lazily-Sound p r c s (some m) none l k = elim (Bool-cases (p c)) [
  | inl h ↦ rw h (record {
    used = c ∷ l.used;
    split = ap (λ t. c ∷ t) l.split;
    spelled = lazily_step h l.spelled;
  })
  | inr h ↦ rw h tt
]

pub capture-Sound :
    (p : ℕ → Bool) (r : Pattern) (c : ℕ) (s : Text) (longer shorter : Option Match)
    → Sound (capture p ∷ r) s longer
    → Sound r (c ∷ s) shorter
    → Sound (capture p ∷ r) (c ∷ s) (elim shorter [
      | some m ↦ some (record m { group = [] })
      | none ↦ elim (p c) [
        | true ↦ elim longer [ none ↦ none | some m ↦ some (record m { group = c ∷ m.group }) ]
        | false ↦ none
      ]
    ])
capture-Sound p r c s longer (some m) l k = record {
  used = k.used;
  split = k.split;
  spelled = capture_stop k.spelled;
}
capture-Sound p r c s none none l k = elim (Bool-cases (p c)) [ inl h ↦ rw h tt | inr h ↦ rw h tt ]
capture-Sound p r c s (some m) none l k = elim (Bool-cases (p c)) [
  | inl h ↦ rw h (record {
    used = c ∷ l.used;
    split = ap (λ t. c ∷ t) l.split;
    spelled = capture_step h l.spelled;
  })
  | inr h ↦ rw h tt
]
