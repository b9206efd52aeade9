-- ===== src/Text/Trim.antt =====
-- Laws of `strip` and its relatives.
use auto_lfs_builder.Prelude.{ℕ, ◌≡◌, refl, sym, ap, ◌∙◌, Bool, [], ◌∷◌, arith}
use auto_lfs_builder.Text.{Text, lstrip_by, rstrip_by, strip, is_space}

-- No white space at either end.
abbrev pub IsTrimmed : Text → Type 0
IsTrimmed s = strip s ≡ s

module _ (p : ℕ → Bool) where
  pub lstrip_by_idem : (s : Text) → lstrip_by p (lstrip_by p s) ≡ lstrip_by p s
  unfolding lstrip_by
  lstrip_by_idem [] = refl
  lstrip_by_idem (c ∷ s) = ground (arith, lstrip_by_idem s)

  pub rstrip_by_idem : (s : Text) → rstrip_by p (rstrip_by p s) ≡ rstrip_by p s
  unfolding rstrip_by
  rstrip_by_idem [] = refl
  rstrip_by_idem (c ∷ s) = ground (arith, rstrip_by_idem s)

  pub rstrip_by-lstrip_by : (s : Text) → rstrip_by p (lstrip_by p s) ≡ lstrip_by p (rstrip_by p s)
  unfolding lstrip_by rstrip_by
  rstrip_by-lstrip_by [] = refl
  rstrip_by-lstrip_by (c ∷ s) = ground (arith, rstrip_by-lstrip_by s)

  -- A text that ends well goes on to do so when its first character is dropped.
  pub rstrip_by-tail : (c : ℕ) (s : Text) → rstrip_by p (c ∷ s) ≡ c ∷ s → rstrip_by p s ≡ s
  unfolding rstrip_by
  rstrip_by-tail c s h = ground arith

pub strip_idem : (s : Text) → IsTrimmed (strip s)
unfolding strip
strip_idem s =
    let l = lstrip_by is_space s in
    ap (rstrip_by is_space) (sym (rstrip_by-lstrip_by is_space l))
    ∙ rstrip_by_idem is_space (lstrip_by is_space l)
    ∙ ap (rstrip_by is_space) (lstrip_by_idem is_space s)

pub IsTrimmed-rstrip : (s : Text) → IsTrimmed s → rstrip_by is_space s ≡ s
unfolding strip
IsTrimmed-rstrip s h =
    ap (rstrip_by is_space) (sym h) ∙ rstrip_by_idem is_space (lstrip_by is_space s) ∙ h

-- Dropping the white space behind a dropped first character keeps a text trimmed.
pub lstrip-tail-IsTrimmed :
    (c : ℕ) (s : Text) → IsTrimmed (c ∷ s) → IsTrimmed (lstrip_by is_space s)
unfolding strip
lstrip-tail-IsTrimmed c s h =
    ap (rstrip_by is_space) (lstrip_by_idem is_space s)
    ∙ rstrip_by-lstrip_by is_space s
    ∙ ap (lstrip_by is_space) (rstrip_by-tail is_space c s (IsTrimmed-rstrip (c ∷ s) h))
