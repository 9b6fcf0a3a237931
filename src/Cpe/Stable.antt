-- ===== src/Cpe/Stable.antt =====
-- reconkg/cpe.py: what `parse` returns, stored as text and parsed again.
use reconkg.Base.{
  ℕ, zero, suc, true, List, [], ◌∷◌, ◌≡◌, refl, sym, subst, map, arith, any, All, All-append,
  All-drop, Option, none, some, get_elem?, is_empty, Bool-cases, inl, inr, drop, ◌==◌, ◌&&◌, not,
}
use mathlib.Core.List.{foldl}
use reconkg.Base.Text.{Text, text_eq, lower_char, lower, strip, starts_with}
use reconkg.Cpe.{
  Cpe, attrs, to_text, unescape, SplitState, split_step, split_escaped, split_start, field_of,
  from_parts, known_parts, checked_parts, parse_stripped, parse, prefix_23, prefix_22, any_value,
  backslash, newline, colon,
}
use reconkg.Cpe.Escape.{EndsInk}
use reconkg.Cpe.RoundTrip.{IsLowerChar, IsLowered, IsFilled, IsPrintable, parse-to_text}

lower-lower_char : (c : ℕ) → IsLowerChar (lower_char c)
unfolding lower_char
lower-lower_char c = ground arith

lower_lowers : (s : Text) → IsLowered (lower s)
unfolding lower
lower_lowers [] = tt
lower_lowers (c ∷ s) = (lower-lower_char c, lower_lowers s)

unescape-All : (s : Text) → IsLowered s → IsLowered (unescape s)
unfolding unescape
unescape-All [] h = tt
unescape-All (c ∷ []) h = h
unescape-All (c ∷ d ∷ s) (p, (q, h)) = elim (Bool-cases (c == backslash && not (d == newline))) [
  | inl e ↦ rw e (q, unescape-All s h)
  | inr e ↦ rw e (p, unescape-All (d ∷ s) (q, h))
]

unescape-IsFilled : (c : ℕ) (s : Text) → IsFilled (unescape (c ∷ s))
unfolding unescape
unescape-IsFilled c [] = refl
unescape-IsFilled c (d ∷ s) = ground arith

record IsLoweredState (s : SplitState) : Type 0 where
  out : All IsLowered s.out
  current : IsLowered s.current

backslash-IsLowerChar : IsLowerChar backslash
unfolding lower_char
backslash-IsLowerChar = refl

split_step-IsLowered :
    (s : SplitState) (c : ℕ) → IsLoweredState s → IsLowerChar c → IsLoweredState (split_step s c)
unfolding split_step
split_step-IsLowered s c h p = elim (Bool-cases s.escaped) [
  | inl e ↦ rw e (record {
    out = h.out;
    current = All-append IsLowerChar s.current _ h.current (backslash-IsLowerChar, (p, tt));
  })
  | inr e ↦ elim (Bool-cases (c == backslash)) [
    | inl f ↦ rw (e, f) (record { out = h.out; current = h.current })
    | inr f ↦ elim (Bool-cases (c == colon)) [
      | inl g ↦
          rw (e, f, g)
            (record {
              out = All-append IsLowered s.out (s.current ∷ []) h.out (h.current, tt);
              current = tt;
            })
      | inr g ↦
          rw (e, f, g)
            (record {
              out = h.out;
              current = All-append IsLowerChar s.current (c ∷ []) h.current (p, tt);
            })
    ]
  ]
]

foldl-IsLowered :
    (s : SplitState) (t : Text)
    → IsLoweredState s
    → IsLowered t
    → IsLoweredState (foldl split_step s t)
foldl-IsLowered s [] h k = h
foldl-IsLowered s (c ∷ t) h (p, k) =
    foldl-IsLowered (split_step s c) t (split_step-IsLowered s c h p) k

split_escaped-IsLowered : (t : Text) → IsLowered t → All IsLowered (split_escaped t)
split_escaped-IsLowered t k =
    let h : IsLoweredState (foldl split_step split_start t) =
      foldl-IsLowered split_start t (record { out = tt; current = tt }) k in
    unfold split_escaped in
    All-append IsLowered (foldl split_step split_start t).out _ h.out (h.current, tt)

field_of-IsFilled : (o : Option Text) → IsFilled (field_of o)
field_of-IsFilled none = refl
field_of-IsFilled (some []) = refl
field_of-IsFilled (some (c ∷ s)) = unescape-IsFilled c s

any-IsLowered : IsLowered any_value
unfolding lower_char
any-IsLowered = (refl, tt)

field_of-IsLowered :
    (parts : List Text) (i : ℕ) → All IsLowered parts → IsLowered (field_of (get_elem? parts i))
field_of-IsLowered [] i h = any-IsLowered
field_of-IsLowered ([] ∷ parts) zero h = any-IsLowered
field_of-IsLowered ((c ∷ s) ∷ parts) zero (p, h) = unescape-All (c ∷ s) p
field_of-IsLowered (v ∷ parts) (suc i) (p, h) = field_of-IsLowered parts i h

field_of_known :
    (v : Text)
    → any (text_eq v) known_parts ≡ true
    → any (text_eq (field_of (some v))) known_parts ≡ true
field_of_known [] h = cc
field_of_known (c ∷ []) h = unfold unescape in h
field_of_known (c ∷ d ∷ s) h = ground arith

abbrev indices : List ℕ
indices = 0 ∷ 1 ∷ 2 ∷ 3 ∷ 4 ∷ 5 ∷ 6 ∷ 7 ∷ 8 ∷ 9 ∷ 10 ∷ []

attrs-from_parts :
    (parts : List Text) → attrs (from_parts parts) ≡ map (λ i. field_of (get_elem? parts i)) indices
unfolding attrs from_parts
attrs-from_parts parts = refl

All-map :
    (P : Text → Type 0) (f : ℕ → Text) → ((i : ℕ) → P (f i)) → (is : List ℕ) → All P (map f is)
All-map P f h [] = tt
All-map P f h (i ∷ is) = (h i, All-map P f h is)

from_parts-IsPrintable :
    (p : Text) (ps : List Text)
    → any (text_eq p) known_parts ≡ true
    → All IsLowered (p ∷ ps)
    → EndsInk (from_parts (p ∷ ps)).other
    → IsPrintable (from_parts (p ∷ ps))
from_parts-IsPrintable p ps h k ends = record {
  known = unfold from_parts in field_of_known p h;
  filled =
      rw attrs-from_parts
        (All-map IsFilled _ (λ i. field_of-IsFilled (get_elem? (p ∷ ps) i)) indices);
  lowered =
      rw attrs-from_parts (All-map IsLowered _ (λ i. field_of-IsLowered (p ∷ ps) i k) indices);
  ends = ends;
}

checked_parts_inv :
    (p : Text) (ps : List Text) (c : Cpe)
    → checked_parts (p ∷ ps) ≡ some c
    → (any (text_eq p) known_parts ≡ true) × (from_parts (p ∷ ps) ≡ c)
checked_parts_inv p ps c e = elim (Bool-cases (any (text_eq p) known_parts)) [
  | inl h ↦
      let q : some (from_parts (p ∷ ps)) ≡ some c = unfold checked_parts in rw h at e in (h, cc)
  | inr h ↦ let q : none ≡ some c = unfold checked_parts in rw h at e in cc
]

checked_parts-IsPrintable :
    (parts : List Text) (c : Cpe)
    → All IsLowered parts
    → checked_parts parts ≡ some c
    → EndsInk c.other
    → IsPrintable c
checked_parts-IsPrintable [] c h e k = unfold checked_parts in cc
checked_parts-IsPrintable (p ∷ ps) c h e k =
    let (known, same) = checked_parts_inv p ps c e in
    subst IsPrintable same
      (from_parts-IsPrintable p ps known h (subst (λ (d : Cpe). EndsInk d.other) (sym same) k))

parse_stripped-IsPrintable :
    (t : Text) (c : Cpe) → IsLowered t → parse_stripped t ≡ some c → EndsInk c.other → IsPrintable c
parse_stripped-IsPrintable t c h e k = elim (Bool-cases (starts_with prefix_23 t)) [
  | inl a ↦ from_prefix 8 (unfold parse_stripped in rw a at e)
  | inr a ↦ elim (Bool-cases (starts_with prefix_22 t)) [
    | inl b ↦ from_prefix 5 (unfold parse_stripped in rw (a, b) at e)
    | inr b ↦ let q : none ≡ some c = unfold parse_stripped in rw (a, b) at e in cc
  ]
]
  where
    from_prefix : (n : ℕ) → checked_parts (split_escaped (drop n t)) ≡ some c → IsPrintable c
    from_prefix n e' =
        checked_parts-IsPrintable (split_escaped (drop n t)) c
          (split_escaped-IsLowered (drop n t) (All-drop IsLowerChar n t h)) e' k

pub parse-IsPrintable :
    (raw : Text) (c : Cpe) → parse (some raw) ≡ some c → EndsInk c.other → IsPrintable c
parse-IsPrintable raw c e k = elim (Bool-cases (is_empty (strip raw))) [
  | inl a ↦ let q : none ≡ some c = unfold parse in rw a at e in cc
  | inr a ↦
      parse_stripped-IsPrintable (lower (strip raw)) c (lower_lowers (strip raw))
        (unfold parse in rw a at e) k
]

-- A parsed CPE name whose last attribute does not end in a space is unchanged by printing it and
-- parsing the text again.
pub parse-to_text-parse :
    (raw : Text) (c : Cpe)
    → parse (some raw) ≡ some c
    → EndsInk c.other
    → parse (some (to_text c)) ≡ some c
parse-to_text-parse raw c e k = parse-to_text c (parse-IsPrintable raw c e k)
