-- ===== src/Menuconfig/WordEnd.antt =====
-- The word that Ctrl-W deletes in an edit box of menuconfig.py.
use auto_lfs_builder.Prelude.{
  ℕ, ◌≡◌, refl, sym, ap, ◌∙◌, [], ◌∷◌, take, Bool, true, false, not, ◌&&◌, ◌||◌, if◌then◌else◌,
  Bool-cases, inl, inr, on_if, arith, nat_eq,
}
use auto_lfs_builder.Text.{Text, is_nil, is_space, lstrip_by, rstrip_by}
use auto_lfs_builder.Menuconfig.Edit.{word_start, is_word_tail, is_word}
use auto_lfs_builder.Menuconfig.Editor.{front, last_of, without_last, without_word}

word-space : (c : ℕ) → is_word c ≡ true → is_space c ≡ false
unfolding is_word is_space
word-space c h = ground arith

-- A text of nothing but characters that pass a test, stripped from either end.
lstrip-rstrip : (p : ℕ → Bool) (s : Text) → is_nil (lstrip_by p s) ≡ is_nil (rstrip_by p s)
unfolding lstrip_by rstrip_by
lstrip-rstrip p [] = refl
lstrip-rstrip p (c ∷ s) = ground (arith, lstrip-rstrip p s)

abbrev spaceless : Text → Text
spaceless s = rstrip_by is_space s

-- `\w*\s*$` at the start of a text
word_then_spaces :
    (s : Text)
    → is_nil (lstrip_by is_space (lstrip_by is_word s)) ≡ is_nil (rstrip_by is_word (spaceless s))
unfolding lstrip_by rstrip_by
word_then_spaces [] = refl
word_then_spaces (c ∷ s) = elim (Bool-cases (is_word c)) [
  | inl w ↦ ground (arith, w, word-space c w, word_then_spaces s)
  | inr w ↦ ground (arith, w, lstrip-rstrip is_space (c ∷ s))
]

rstrip_by-nil : (u : Text) → is_nil (rstrip_by is_word u) ≡ true → rstrip_by is_word u ≡ []
rstrip_by-nil u h = is_nil-eq (rstrip_by is_word u) h
  where
    is_nil-eq : (s : Text) → is_nil s ≡ true → s ≡ []
    is_nil-eq [] h = refl
    is_nil-eq (c ∷ s) h = cc h

last_of-word :
    (u : Text) → is_nil (rstrip_by is_word u) ≡ true → is_nil (rstrip_by is_word (last_of u)) ≡ true
unfolding rstrip_by last_of
last_of-word [] h = refl
last_of-word (c ∷ []) h = h
last_of-word (c ∷ d ∷ u) h = last_of-word (d ∷ u) (ground (arith, h))

without_last_one : (c : ℕ) → without_last (c ∷ []) ≡ []
unfolding without_last front last_of rstrip_by
without_last_one c = ground arith

without_last_word : (u : Text) → is_nil (rstrip_by is_word u) ≡ true → without_last u ≡ []
unfolding without_last
without_last_word u h = rw (last_of-word u h) (rstrip_by-nil u h)

without_last-cons :
    (c d : ℕ) (u : Text)
    → is_nil (rstrip_by is_word (c ∷ d ∷ u)) ≡ false
    → without_last (c ∷ d ∷ u) ≡ c ∷ without_last (d ∷ u)
unfolding without_last front last_of rstrip_by
without_last-cons c d u h = ground (arith, h)

-- The test for the last word, by what is left without the white space at the end.
word_tail_rest :
    (c : ℕ) (s : Text)
    → is_word_tail (c ∷ s) ≡ (
        is_nil (rstrip_by is_word (spaceless (c ∷ s))) || (not (is_word c) && is_nil (spaceless s)))
unfolding is_word_tail
word_tail_rest c s = rw (word_then_spaces (c ∷ s), lstrip-rstrip is_space s) refl

word_tail-without : (c : ℕ) (s : Text) → is_word_tail (c ∷ s) ≡ true → without_word (c ∷ s) ≡ []
unfolding without_word rstrip_by
word_tail-without c s h = by_rest (spaceless s) (sym (word_tail_rest c s) ∙ h)
  where
    by_rest :
        (rest : Text)
        → (is_nil (rstrip_by is_word (if is_nil rest && is_space c then [] else c ∷ rest))
            || (not (is_word c) && is_nil rest))
          ≡ true
        → without_last (if is_nil rest && is_space c then [] else c ∷ rest) ≡ []
    by_rest [] q =
        on_if (λ u. without_last u ≡ []) (is_space c) (λ _. unfold without_last in refl)
          (λ _. without_last_one c)
    by_rest (d ∷ rest) q = without_last_word (c ∷ d ∷ rest) (ground (arith, q))

word_tail-keeps :
    (c : ℕ) (s : Text) → is_word_tail (c ∷ s) ≡ false → without_word (c ∷ s) ≡ c ∷ without_word s
unfolding without_word rstrip_by
word_tail-keeps c s h = by_rest (spaceless s) (sym (word_tail_rest c s) ∙ h)
  where
    by_rest :
        (rest : Text)
        → (is_nil (rstrip_by is_word (if is_nil rest && is_space c then [] else c ∷ rest))
            || (not (is_word c) && is_nil rest))
          ≡ false
        → without_last (if is_nil rest && is_space c then [] else c ∷ rest) ≡ c ∷ without_last rest
    by_rest [] q = absurd (ground (arith, q, word-space c))
    by_rest (d ∷ rest) q = without_last-cons c d rest (ground (arith, q))

-- The search for the last word finds where it starts.
pub take-word_start : (s : Text) → take (word_start s) s ≡ without_word s
unfolding word_start
take-word_start [] = unfold without_word in refl
take-word_start (c ∷ s) = elim (Bool-cases (is_word_tail (c ∷ s))) [
  | inl q ↦ rw q (sym (word_tail-without c s q))
  | inr q ↦ rw q (ap (λ r. c ∷ r) (take-word_start s) ∙ sym (word_tail-keeps c s q))
]
