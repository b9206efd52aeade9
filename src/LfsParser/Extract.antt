-- ===== src/LfsParser/Extract.antt =====
-- Where the commands that `extract_build_commands` returns come from.
use auto_lfs_builder.Prelude.{
  ℕ, ◌≡◌, refl, sym, ap, ◌∙◌, [], ◌∷◌, ◌++◌, append_assoc, Bool, true, false, All, contains,
  contains-append, nat_beq_iff, nat_eq, list_eq, ◌==◌, arith,
}
use auto_lfs_builder.Text.{Text, codes, lower, lower_char}
use auto_lfs_builder.Regex.{Pattern, one, many, capture, any_char, none_of, letters}
use auto_lfs_builder.Regex.Spelling.{Spells, capture-Spells, end, char, many_stop, many_step}
use auto_lfs_builder.Text.Parts.{Lacks}
use auto_lfs_builder.LfsParser.Commands.{is_quote, pre_pattern, userinput_pattern}

-- A literal is spelled by the text in any case.
letters-Spells :
    (w : Text) (r : Pattern) {t g : Text}
    → Spells (letters w ++ r) t g
    → (u : Text) × (v : Text) × (t ≡ u ++ v) × (lower u ≡ lower w) × Spells r v g
unfolding letters lower
letters-Spells [] r {t} s = ([], t, refl, refl, s)
letters-Spells (x ∷ w) r (char {c} h s) =
    let (u, v, e, l, rest) = letters-Spells w r s in
    (c ∷ u, v, ap (λ z. c ∷ z) e, ground arith, rest)

last_letters-Spells : (w : Text) {t g : Text} → Spells (letters w) t g → lower t ≡ lower w
unfolding letters lower
last_letters-Spells [] end = refl
last_letters-Spells (x ∷ w) (char h s) = ground (arith, last_letters-Spells w s)

-- A repetition spells characters of its class.
many-Spells :
    (p : ℕ → Bool) (r : Pattern) {t g : Text}
    → Spells (many p ∷ r) t g
    → (u : Text) × (v : Text) × (t ≡ u ++ v) × All (λ c. p c ≡ true) u × Spells r v g
many-Spells p r {t} (many_stop s) = ([], t, refl, tt, s)
many-Spells p r (many_step {c} h s) =
    let (u, v, e, all, rest) = many-Spells p r s in (c ∷ u, v, ap (λ z. c ∷ z) e, (h, all), rest)

one-Spells :
    (p : ℕ → Bool) (r : Pattern) {t g : Text}
    → Spells (one p ∷ r) t g
    → (c : ℕ) × (v : Text) × (t ≡ c ∷ v) × (p c ≡ true) × Spells r v g
one-Spells p r (char {c} {t} h s) = (c, t, refl, h, s)

-- An element named `tag`: its name behind `<`, its attributes up to the first `>`, its content, and the
-- tag that closes it.
pub record IsElement (tag text content : Text) : Type 0 where
  pub name : Text
  pub attributes : Text
  pub close : Text
  pub split : text ≡ name ++ (attributes ++ b'>' ∷ (content ++ close))
  pub opens : lower name ≡ b'<' ∷ tag
  pub inside : Lacks b'>' attributes
  pub closes : lower close ≡ codes "</" ++ (tag ++ codes ">")

-- The attributes have the class userinput, alone and in quotes.
pub record HasClass (attributes : Text) : Type 0 where
  pub before : Text
  pub key : Text
  pub opening : ℕ
  pub class : Text
  pub closing : ℕ
  pub after : Text
  pub split : attributes ≡ before ++ (key ++ opening ∷ (class ++ closing ∷ after))
  pub keyed : lower key ≡ codes "class="
  pub opened : is_quote opening ≡ true
  pub named : lower class ≡ codes "userinput"
  pub closed : is_quote closing ≡ true

None-Lacks : (u : Text) → All (λ c. none_of b'>' c ≡ true) u → Lacks b'>' u
unfolding contains
None-Lacks [] h = refl
None-Lacks (c ∷ u) h = ground (arith, None-Lacks u h.1)

Lacks-lower : (u : Text) → contains b'>' u ≡ contains b'>' (lower u)
unfolding contains lower lower_char
Lacks-lower [] = refl
Lacks-lower (c ∷ u) = ground (arith, Lacks-lower u)

-- What stands behind the attributes: `>`, the content and the closing tag.
tail_of : Text → Pattern
tail_of close = one (λ c. c == b'>') ∷ capture any_char ∷ letters close

tail-Spells :
    (close : Text) {t g : Text}
    → Spells (tail_of close) t g
    → (v : Text) × (t ≡ b'>' ∷ (g ++ v)) × (lower v ≡ lower close)
unfolding tail_of
tail-Spells close {t} {g} s =
    let (c, u, e, is_end, s1) = one-Spells (λ c. c == b'>') (capture any_char ∷ letters close) s in
    let (v, g', e1, s2) = capture-Spells any_char (letters close) s1 in
    (
      v,
      e ∙ ap (λ z. z ∷ u) ((nat_beq_iff c b'>').0 is_end) ∙ ap (λ z. b'>' ∷ z) e1,
      last_letters-Spells close s2,
    )

-- A group of either pattern is the content of an element.
pub userinput-IsElement :
    {t g : Text} → Spells userinput_pattern t g → IsElement (codes "userinput") t g
unfolding userinput_pattern tail_of
userinput-IsElement {t} {g} s =
    let close = codes "</userinput>" in
    let (name, t1, e1, l1, s1) =
      letters-Spells (codes "<userinput") (many (none_of b'>') ∷ tail_of close) s in
    let (attributes, t2, e2, free, s2) = many-Spells (none_of b'>') (tail_of close) s1 in
    let (v, e3, l3) = tail-Spells close s2 in
    record {
      name = name;
      attributes = attributes;
      close = v;
      split = e1 ∙ ap (λ z. name ++ z) (e2 ∙ ap (λ z. attributes ++ z) e3);
      opens = l1 ∙ unfold lower in refl;
      inside = None-Lacks attributes free;
      closes = l3 ∙ unfold lower in refl;
    }

-- What the pattern of `pre` has between the name and the class, and behind the class.
pre_end : Pattern
pre_end = many (none_of b'>') ∷ tail_of (codes "</pre>")

pre_class : Pattern
unfolding letters
pre_class =
    letters (codes "class=")
    ++ (one is_quote ∷ (letters (codes "userinput") ++ (one is_quote ∷ pre_end)))

-- The attributes with the class, and the text behind them.
record IsPre (t g : Text) : Type 0 where
  attributes : Text
  back : Text
  split : t ≡ attributes ++ back
  inside : Lacks b'>' attributes
  classed : HasClass attributes
  rest : Spells (tail_of (codes "</pre>")) back g

literal-Lacks : (u w : Text) → lower u ≡ lower w → contains b'>' w ≡ false → Lacks b'>' u
literal-Lacks u w e h = Lacks-lower u ∙ ap (contains b'>') e ∙ sym (Lacks-lower w) ∙ h

quote-Lacks : (q : ℕ) (u : Text) → is_quote q ≡ true → Lacks b'>' u → Lacks b'>' (q ∷ u)
unfolding contains
quote-Lacks q u h k = ground (arith, h, k)

append-Lacks : (u v : Text) → Lacks b'>' u → Lacks b'>' v → Lacks b'>' (u ++ v)
append-Lacks u v h k = ground (arith, contains-append b'>' u v, h, k)

class_split :
    (before key class after : Text) (q q' : ℕ) (t t1 t2 t3 t4 t5 t6 : Text)
    → t ≡ before ++ t1
    → t1 ≡ key ++ t2
    → t2 ≡ q ∷ t3
    → t3 ≡ class ++ t4
    → t4 ≡ q' ∷ t5
    → t5 ≡ after ++ t6
    → t ≡ (before ++ (key ++ q ∷ (class ++ q' ∷ after))) ++ t6
class_split before key class after q q' t t1 t2 t3 t4 t5 t6 e1 e2 e3 e4 e5 e6 =
    rw (e1, e2, e3, e4, e5, e6) (simp append_assoc)

class-IsPre : {t g : Text} → Spells (many (none_of b'>') ∷ pre_class) t g → IsPre t g
unfolding pre_class pre_end
class-IsPre {t} {g} s =
    let (before, t1, e1, free, s1) = many-Spells (none_of b'>') pre_class s in
    let (key, t2, e2, l2, s2) =
      letters-Spells (codes "class=")
        (one is_quote ∷ (letters (codes "userinput") ++ (one is_quote ∷ pre_end))) s1 in
    let (q, t3, e3, h3, s3) =
      one-Spells is_quote (letters (codes "userinput") ++ (one is_quote ∷ pre_end)) s2 in
    let (class, t4, e4, l4, s4) = letters-Spells (codes "userinput") (one is_quote ∷ pre_end) s3 in
    let (q', t5, e5, h5, s5) = one-Spells is_quote pre_end s4 in
    let (after, t6, e6, free', s6) = many-Spells (none_of b'>') (tail_of (codes "</pre>")) s5 in
    record {
      attributes = before ++ (key ++ q ∷ (class ++ q' ∷ after));
      back = t6;
      split = class_split before key class after q q' t t1 t2 t3 t4 t5 t6 e1 e2 e3 e4 e5 e6;
      inside = append-Lacks before (key ++ q ∷ (class ++ q' ∷ after)) (None-Lacks before free) (
          append-Lacks key (q ∷ (class ++ q' ∷ after))
            (literal-Lacks key (codes "class=") l2 (unfold contains in refl))
            (quote-Lacks q (class ++ q' ∷ after) h3 (
              append-Lacks class (q' ∷ after)
                (literal-Lacks class (codes "userinput") l4 (unfold contains in refl))
                (quote-Lacks q' after h5 (None-Lacks after free')))));
      classed = record {
        before = before;
        key = key;
        opening = q;
        class = class;
        closing = q';
        after = after;
        split = refl;
        keyed = l2 ∙ unfold lower in refl;
        opened = h3;
        named = l4 ∙ unfold lower in refl;
        closed = h5;
      };
      rest = s6;
    }

pub pre-IsElement :
    {t g : Text}
    → Spells pre_pattern t g
    → (e : IsElement (codes "pre") t g) × HasClass e.attributes
unfolding pre_pattern pre_class pre_end tail_of
pre-IsElement {t} {g} s =
    let close = codes "</pre>" in
    let (name, t1, e1, l1, s1) =
      letters-Spells (codes "<pre") (many (none_of b'>') ∷ pre_class) s in
    let p = class-IsPre s1 in
    let (v, e3, l3) = tail-Spells close p.rest in
    (
      record {
        name = name;
        attributes = p.attributes;
        close = v;
        split = e1 ∙ ap (λ z. name ++ z) (p.split ∙ ap (λ z. p.attributes ++ z) e3);
        opens = l1 ∙ unfold lower in refl;
        inside = p.inside;
        closes = l3 ∙ unfold lower in refl;
      },
      p.classed,
    )
