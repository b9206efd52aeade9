-- ===== src/Changelog/RoundTrip.antt =====
-- `get_entity` reads what an entity declaration says.
use auto_lfs_builder.Prelude.{
  ℕ, suc, ◌+◌, ◌≡◌, ◌≢◌, refl, ap, ◌∙◌, [], ◌∷◌, ◌++◌, length, take, drop, some, arith, List-cases,
  inl, inr, nat_eq, contains,
}
use auto_lfs_builder.Text.{Text, codes, starts_with, split_on, cons_head}
use auto_lfs_builder.Text.Parts.{Lacks, split_on_front}
use auto_lfs_builder.KernelConfig.Lines.{before_quote}
use auto_lfs_builder.Changelog.Entity.{find, entity_key, entity_value, get_entity}

find-front :
    (p z : Text) → Lacks 0x22 p → find (codes " \"") (p ++ (codes " \"" ++ z)) ≡ some (length p)
unfolding find starts_with contains
find-front [] z h = refl
find-front (c ∷ []) z h = ground (arith, find-front [] z refl, nat_eq.beq_iff 0x22 c)
find-front (c ∷ d ∷ p) z h = ground (arith, find-front (d ∷ p) z, nat_eq.beq_iff 0x22 d)

pub take-front : (p z : Text) → take (length p) (p ++ z) ≡ p
take-front [] z = refl
take-front (c ∷ p) z = ap (λ s. c ∷ s) (take-front p z)

drop-front : (p z : Text) (n : ℕ) → drop (length p + n) (p ++ z) ≡ drop n z
drop-front [] z n = ground arith
drop-front (c ∷ p) z n =
    let e : length (c ∷ p) + n ≡ suc (length p + n) = omega arith in rw e (drop-front p z n)

split_on-ne-nil : (sep : ℕ) (s : Text) → split_on sep s ≢ []
unfolding split_on cons_head
split_on-ne-nil sep [] e = cc e
split_on-ne-nil sep (c ∷ s) e = ground (arith, e, split_on-ne-nil sep s)

before_quote-front : (v rest : Text) → Lacks 0x22 v → before_quote (v ++ 0x22 ∷ rest) ≡ v
unfolding before_quote
before_quote-front v rest h = elim (List-cases (split_on 0x22 rest)) [
  | inl e ↦ absurd (split_on-ne-nil 0x22 rest e)
  | inr (p, ps, e) ↦ ground (arith, split_on_front 0x22 v rest h, e)
]

-- A line of the diff, behind its first character.
abbrev pub declaration : Text → Text → Text → Text
declaration key value rest = codes "<!ENTITY " ++ (key ++ (codes " \"" ++ (value ++ 0x22 ∷ rest)))

-- An entity declaration is read back to its key and its value, whatever stands in front of it and
-- behind it, if neither of them holds a quote.
pub get_entity-declaration :
    (c : ℕ) (key value rest : Text)
    → Lacks 0x22 key
    → Lacks 0x22 value
    → get_entity (c ∷ declaration key value rest) ≡ some (key, value)
unfolding get_entity entity_key entity_value
get_entity-declaration c key value rest h k =
    let p : Text = codes "<!ENTITY " ++ key in
    let found : find (codes " \"") (declaration key value rest) ≡ some (length p) =
      find-front p (value ++ 0x22 ∷ rest) (unfold contains in h) in
    let z = value ++ 0x22 ∷ rest in
    let key_part = ap (drop 9) (take-front p (codes " \"" ++ z)) in
    let value_part =
      ap before_quote (drop-front p (codes " \"" ++ z) 2) ∙ before_quote-front value rest k in
    rw found (λ i. some (key_part i, value_part i))
