-- ===== src/Cpe/RoundTrip.antt =====
-- reconkg/cpe.py: printing a CPE name and parsing the text.
use reconkg.Base.{
  ℕ, true, false, List, [], ◌∷◌, ◌++◌, ◌≡◌, refl, ◌∙◌, ap, arith, any, map, All, All-append, some,
  is_empty,
}
use reconkg.Base.Text.{
  Text, codes, text_eq, eq_of_text_eq, lower_char, lower, strip, join, is_space, starts_with,
}
use reconkg.Cpe.{
  Cpe, attrs, to_text, escape, unescape, split_escaped, field_of, from_parts, known_parts,
  checked_parts, parse_stripped, parse, prefix_23, colon, any_value, na,
}
use reconkg.Cpe.Escape.{
  unescape-escape, split_escaped-join, All-escape, EndsInk, EndsInk-append, EndsInk-escape,
  rstrip-EndsInk,
}

abbrev pub IsLowerChar : ℕ → Type 0
IsLowerChar c = lower_char c ≡ c

abbrev pub IsLowered : Text → Type 0
IsLowered = All IsLowerChar

abbrev pub IsFilled : Text → Type 0
IsFilled v = is_empty v ≡ false

-- The names that the parser returns, but for a space at the end of the last attribute.
pub record IsPrintable (c : Cpe) : Type 0 where
  pub known : any (text_eq c.part) known_parts ≡ true
  pub filled : All IsFilled (attrs c)
  pub lowered : All IsLowered (attrs c)
  pub ends : EndsInk c.other

lower-IsLowered : (s : Text) → IsLowered s → lower s ≡ s
unfolding lower
lower-IsLowered [] h = refl
lower-IsLowered (c ∷ s) (p, h) = λ i. p i ∷ lower-IsLowered s h i

All-join {ℓ} :
    (P : ℕ → Type ℓ) (p : P colon) (vs : List Text) → All (All P) vs → All P (join (colon ∷ []) vs)
unfolding join
All-join P p [] h = tt
All-join P p (v ∷ []) (h, _) = h
All-join P p (v ∷ w ∷ vs) (h, hs) =
    All-append P v (colon ∷ join (colon ∷ []) (w ∷ vs)) h (p, All-join P p (w ∷ vs) hs)

EndsInk-join : (vs : List Text) (w : Text) → EndsInk w → EndsInk (join (colon ∷ []) (vs ++ w ∷ []))
unfolding join
EndsInk-join [] w h = h
EndsInk-join (v ∷ []) w h = EndsInk-append v (colon ∷ w) (EndsInk-append (colon ∷ []) w h)
EndsInk-join (v ∷ u ∷ vs) w h =
    EndsInk-append v (colon ∷ join (colon ∷ []) (u ∷ vs ++ w ∷ [])) (
      EndsInk-append (colon ∷ []) (join (colon ∷ []) (u ∷ vs ++ w ∷ []))
        (EndsInk-join (u ∷ vs) w h))

All-map-escape : (vs : List Text) → All IsLowered vs → All IsLowered (map escape vs)
unfolding lower_char
All-map-escape [] h = tt
All-map-escape (v ∷ vs) (p, h) = (All-escape IsLowerChar refl refl v p, All-map-escape vs h)

-- All attributes but the last.
abbrev inner : Cpe → List Text
inner c =
    c.part ∷ c.vendor ∷ c.product ∷ c.version ∷ c.update ∷ c.edition ∷ c.language ∷ c.sw_edition
    ∷ c.target_sw ∷ c.target_hw ∷ []

abbrev rest : Cpe → List Text
rest c =
    c.vendor ∷ c.product ∷ c.version ∷ c.update ∷ c.edition ∷ c.language ∷ c.sw_edition
    ∷ c.target_sw ∷ c.target_hw ∷ c.other ∷ []

escape_known : (v : Text) → any (text_eq v) known_parts ≡ true → escape v ≡ v
escape_known v h = ground (
  arith,
  eq_of_text_eq v (codes "a"),
  eq_of_text_eq v (codes "o"),
  eq_of_text_eq v (codes "h"),
  eq_of_text_eq v any_value,
  eq_of_text_eq v na,
  facts,
)
  where
    facts :
        (escape (codes "a") ≡ codes "a")
        × (escape (codes "o") ≡ codes "o")
        × (escape (codes "h") ≡ codes "h")
        × (escape any_value ≡ any_value)
        × (escape na ≡ na)
    facts = unfold escape in (refl, refl, refl, refl, refl)

field_of-unescape : (s v : Text) → unescape s ≡ v → IsFilled v → field_of (some s) ≡ v
field_of-unescape (c ∷ s) v e h = e
field_of-unescape [] [] e h = cc
field_of-unescape [] (c ∷ v) e h = unfold unescape in cc

field_of-escape : (v : Text) → IsFilled v → field_of (some (escape v)) ≡ v
field_of-escape v h = field_of-unescape (escape v) v (unescape-escape v) h

from_parts-escape : (c : Cpe) → All IsFilled (attrs c) → from_parts (map escape (attrs c)) ≡ c
unfolding from_parts attrs
from_parts-escape c (a, (b, (d, (e, (f, (g, (h, (j, (k, (l, (m, _))))))))))) = λ i. record {
  part = field_of-escape c.part a i;
  vendor = field_of-escape c.vendor b i;
  product = field_of-escape c.product d i;
  version = field_of-escape c.version e i;
  update = field_of-escape c.update f i;
  edition = field_of-escape c.edition g i;
  language = field_of-escape c.language h i;
  sw_edition = field_of-escape c.sw_edition j i;
  target_sw = field_of-escape c.target_sw k i;
  target_hw = field_of-escape c.target_hw l i;
  other = field_of-escape c.other m i;
}

checked_parts-cons :
    (p : Text) (ps : List Text)
    → any (text_eq p) known_parts ≡ true
    → checked_parts (p ∷ ps) ≡ some (from_parts (p ∷ ps))
unfolding checked_parts
checked_parts-cons p ps h = rw h

checked_parts-escape :
    (c : Cpe)
    → any (text_eq c.part) known_parts ≡ true
    → All IsFilled (attrs c)
    → checked_parts (map escape (attrs c)) ≡ some c
checked_parts-escape c known filled = shape ∙ ap some (from_parts-escape c filled)
  where
    shape : checked_parts (map escape (attrs c)) ≡ some (from_parts (map escape (attrs c)))
    shape =
        unfold attrs in
        checked_parts-cons (escape c.part) (map escape (rest c))
          (rw (escape_known c.part known) known)

module _ {c : Cpe} (p : IsPrintable c) where
  lower-to_text : lower (to_text c) ≡ to_text c
  lower-to_text =
      unfold to_text lower_char in
      lower-IsLowered (to_text c) (
        All-append IsLowerChar prefix_23 (join (colon ∷ []) (map escape (attrs c))) (omega arith)
          (All-join IsLowerChar refl (map escape (attrs c)) (All-map-escape (attrs c) p.lowered)))

  EndsInk-to_text : EndsInk (to_text c)
  EndsInk-to_text =
      unfold to_text in
      EndsInk-append prefix_23 (join (colon ∷ []) (map escape (inner c) ++ escape c.other ∷ []))
        (EndsInk-join (map escape (inner c)) (escape c.other) (EndsInk-escape c.other p.ends))

  strip-to_text : strip (to_text c) ≡ to_text c
  strip-to_text = unfold strip to_text is_space in rstrip-EndsInk (to_text c) EndsInk-to_text

  split_escaped-attrs :
      split_escaped (join (colon ∷ []) (map escape (attrs c))) ≡ map escape (attrs c)
  unfolding attrs
  split_escaped-attrs = split_escaped-join c.part (rest c)

  parse_stripped-to_text : parse_stripped (to_text c) ≡ some c
  parse_stripped-to_text =
      opened ∙ ap checked_parts split_escaped-attrs ∙ checked_parts-escape c p.known p.filled
    where
      opened :
          parse_stripped (to_text c)
          ≡ checked_parts (split_escaped (join (colon ∷ []) (map escape (attrs c))))
      opened = unfold parse_stripped to_text starts_with in refl

  is_empty-to_text : is_empty (to_text c) ≡ false
  is_empty-to_text = unfold to_text in refl

-- Printing a CPE name and parsing the text gives the name back, if its part is one of the five
-- known ones, no attribute is empty or has a capital, and the last one does not end in a space.
pub parse-to_text : (c : Cpe) → IsPrintable c → parse (some (to_text c)) ≡ some c
parse-to_text c p =
    unfold parse in
    rw (strip-to_text p, is_empty-to_text p, lower-to_text p) (parse_stripped-to_text p)
