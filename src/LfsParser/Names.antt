-- ===== src/LfsParser/Names.antt =====
-- The names of a dependency list: what the comprehension keeps of a part.
use auto_lfs_builder.Prelude.{
  ℕ, ◌≡◌, ◌≢◌, refl, ap, ◌∙◌, List, [], ◌∷◌, ◌++◌, true, false, not, ◌&&◌, arith, nat_eq, list_eq,
  list_beq_iff, ◌==◌,
}
use auto_lfs_builder.Text.{
  Text, codes, is_space, is_nil, strip, lower, lower_char, lstrip_by, rstrip_by, rstrip_dots,
}
use auto_lfs_builder.Text.Parts.{Lacks}
use auto_lfs_builder.LfsParser.Dependencies.{is_listed, dep_name, dep_names}
use auto_lfs_builder.LfsParser.AndPattern.{IsWord}

-- A name of one word that the comprehension keeps as it is.
pub record IsName (n : Text) : Type 0 where
  pub word : IsWord n
  pub whole : Lacks b',' n
  pub filled : n ≢ []
  pub not_and : n ≢ codes "and"
  pub not_none : lower n ≢ codes "none"
  pub dotless : rstrip_dots n ≡ n

lstrip-word : (c : ℕ) (s : Text) → is_space c ≡ false → lstrip_by is_space (c ∷ s) ≡ c ∷ s
unfolding lstrip_by
lstrip-word c s h = rw h

rstrip-word : (w : Text) → IsWord w → rstrip_by is_space w ≡ w
unfolding rstrip_by
rstrip-word [] h = refl
rstrip-word (c ∷ w) h = rw (rstrip-word w h.1) (ground arith)

pub strip-word : (w : Text) → IsWord w → strip w ≡ w
unfolding strip
strip-word [] h = refl
strip-word (c ∷ w) h = ap (rstrip_by is_space) (lstrip-word c w h.0) ∙ rstrip-word (c ∷ w) h

-- A space in front of a word is stripped.
pub strip-space : (w : Text) → IsWord w → strip (0x20 ∷ w) ≡ w
unfolding strip lstrip_by is_space
strip-space w h = unfold strip in strip-word w h

IsWord-snoc : (w : Text) (c : ℕ) → IsWord w → is_space c ≡ false → IsWord (w ++ c ∷ [])
IsWord-snoc [] c h k = (k, tt)
IsWord-snoc (x ∷ w) c h k = (h.0, IsWord-snoc w c h.1 k)

dot_is_no_space : is_space b'.' ≡ false
unfolding is_space
dot_is_no_space = refl

pub IsWord-dot : (w : Text) → IsWord w → IsWord (w ++ codes ".")
IsWord-dot w h = IsWord-snoc w b'.' h dot_is_no_space

rstrip_by-dot :
    (w : Text) → rstrip_by (λ c. c == b'.') (w ++ codes ".") ≡ rstrip_by (λ c. c == b'.') w
unfolding rstrip_by
rstrip_by-dot [] = refl
rstrip_by-dot (c ∷ w) = rw (rstrip_by-dot w)

rstrip_dots-dot : (w : Text) → rstrip_dots (w ++ codes ".") ≡ rstrip_dots w
unfolding rstrip_dots
rstrip_dots-dot w = rstrip_by-dot w

-- No word with a full stop is `none`.
dot-ne-none : (w : Text) → lower (w ++ codes ".") ≢ codes "none"
unfolding lower lower_char
dot-ne-none [] e = cc
dot-ne-none (a ∷ []) e = cc
dot-ne-none (a ∷ b ∷ []) e = cc
dot-ne-none (a ∷ b ∷ c ∷ []) e = ground arith
dot-ne-none (a ∷ b ∷ c ∷ d ∷ []) e = cc
dot-ne-none (a ∷ b ∷ c ∷ d ∷ f ∷ w) e = cc

dot-ne-nil : (w : Text) → w ++ codes "." ≢ []
dot-ne-nil [] e = cc
dot-ne-nil (c ∷ w) e = cc

keeps :
    (s : Text)
    → s ≢ []
    → lower s ≢ codes "none"
    → not (is_nil s) && not (lower s == codes "none") ≡ true
keeps [] ne h = absurd (ne refl)
keeps (c ∷ s) ne h = ground (arith, list_beq_iff (lower (c ∷ s)) (codes "none"))

is_listed-strip : (d s : Text) → strip d ≡ s → s ≢ [] → lower s ≢ codes "none" → is_listed d ≡ true
unfolding is_listed
is_listed-strip d s e ne h = rw e (keeps s ne h)

module _ (d n : Text) (ds : List Text) where
  -- A part that strips to a name.
  pub dep_names-name : strip d ≡ n → IsName n → dep_names (d ∷ ds) ≡ n ∷ dep_names ds
  unfolding dep_names dep_name
  dep_names-name e h =
      rw (is_listed-strip d n e h.filled h.not_none)
        (ap (λ z. z ∷ dep_names ds) (ap rstrip_dots e ∙ h.dotless))

  -- A part that strips to a name with a full stop behind it.
  pub dep_names-dot : strip d ≡ n ++ codes "." → IsName n → dep_names (d ∷ ds) ≡ n ∷ dep_names ds
  unfolding dep_names dep_name
  dep_names-dot e h =
      rw (is_listed-strip d (n ++ codes ".") e (dot-ne-nil n) (dot-ne-none n))
        (ap (λ z. z ∷ dep_names ds) (ap rstrip_dots e ∙ (rstrip_dots-dot n ∙ h.dotless)))

-- A blank part is dropped.
pub dep_names-blank : (d : Text) (ds : List Text) → strip d ≡ [] → dep_names (d ∷ ds) ≡ dep_names ds
unfolding dep_names is_listed
dep_names-blank d ds e = rw e
