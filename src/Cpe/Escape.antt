-- ===== src/Cpe/Escape.antt =====
-- reconkg/cpe.py: escaping one attribute, and the splitter on it.
use reconkg.Base.{
  ℕ, false, List, [], ◌∷◌, ◌++◌, ◌≡◌, refl, sym, ◌∙◌, ap, arith, append_assoc, append-nil,
  if◌then◌else◌, ◌==◌, ==_iff, Bool-cases, inl, inr, map, All, All-append,
}
use mathlib.Core.List.{foldl, foldl-append}
use reconkg.Base.Text.{Text, replace, is_space, rstrip, join}
use reconkg.Cpe.{
  backslash, colon, escape, unescape, SplitState, split_step, split_end, split_escaped,
}

replace-append : (c : ℕ) (r s t : Text) → replace c r (s ++ t) ≡ replace c r s ++ replace c r t
unfolding replace
replace-append c r [] t = refl
replace-append c r (d ∷ s) t =
    rw (replace-append c r s t)
      (sym (append_assoc (if d == c then r else d ∷ []) (replace c r s) (replace c r t)))

escape_char : ℕ → Text
escape_char c =
    if c == backslash
    then backslash ∷ backslash ∷ []
    else if c == colon
    then backslash ∷ colon ∷ []
    else c ∷ []

escape_nil : escape [] ≡ []
unfolding escape
escape_nil = refl

escape-cons : (c : ℕ) (v : Text) → escape (c ∷ v) ≡ escape_char c ++ escape v
unfolding escape escape_char
escape-cons c v =
    replace-append colon (backslash ∷ colon ∷ [])
      (if c == backslash then backslash ∷ backslash ∷ [] else c ∷ []) _
    ∙ ap (λ (h : Text). h ++ escape v) (one c)
  where
    one :
        (c : ℕ)
        → replace colon
            (backslash ∷ colon ∷ [])
            (if c == backslash then backslash ∷ backslash ∷ [] else c ∷ [])
          ≡ escape_char c
    one c = ground arith

unescape_plain : (c : ℕ) (s : Text) → c == backslash ≡ false → unescape (c ∷ s) ≡ c ∷ unescape s
unfolding unescape
unescape_plain c [] h = refl
unescape_plain c (d ∷ s) h = rw h

unescape-backslash : (s : Text) → unescape (backslash ∷ backslash ∷ s) ≡ backslash ∷ unescape s
unfolding unescape
unescape-backslash s = refl

unescape-colon : (s : Text) → unescape (backslash ∷ colon ∷ s) ≡ colon ∷ unescape s
unfolding unescape
unescape-colon s = refl

unescape-escape_char : (c : ℕ) (s : Text) → unescape (escape_char c ++ s) ≡ c ∷ unescape s
unfolding escape_char
unescape-escape_char c s = elim (Bool-cases (c == backslash)) [
  | inl e ↦ rw ((==_iff c backslash).0 e) (unescape-backslash s)
  | inr e ↦ elim (Bool-cases (c == colon)) [
    | inl f ↦ rw ((==_iff c colon).0 f) (unescape-colon s)
    | inr f ↦ rw (e, f) (unescape_plain c s e)
  ]
]

-- Escaping loses nothing.
pub unescape-escape : (v : Text) → unescape (escape v) ≡ v
unescape-escape [] = rw escape_nil (unfold unescape in refl)
unescape-escape (c ∷ v) =
    rw escape-cons
      (unescape-escape_char c (escape v) ∙ ap (λ (t : Text). c ∷ t) (unescape-escape v))

abbrev between : List Text → Text → SplitState
between out current = record { out = out; current = current; escaped = false }

split_step-escape_char :
    (out : List Text) (t : Text) (c : ℕ)
    → foldl split_step (between out t) (escape_char c) ≡ between out (t ++ escape_char c)
unfolding escape_char split_step
split_step-escape_char out t c = elim (Bool-cases (c == backslash)) [
  | inl e ↦ rw e
  | inr e ↦ elim (Bool-cases (c == colon)) [
    | inl f ↦ rw (e, f)
    | inr f ↦ rw (e, f) (rw (e, f, split_step))
  ]
]

-- The splitter takes an escaped attribute into the current part.
foldl-escape :
    (out : List Text) (t v : Text)
    → foldl split_step (between out t) (escape v) ≡ between out (t ++ escape v)
foldl-escape out t [] = rw (escape_nil, append-nil)
foldl-escape out t (c ∷ v) =
    rw (escape-cons, foldl-append, split_step-escape_char out t c)
      (foldl-escape out (t ++ escape_char c) v
        ∙ ap (between out) (append_assoc t (escape_char c) (escape v)))

split-join :
    (out : List Text) (v : Text) (vs : List Text)
    → split_end (foldl split_step (between out []) (join (colon ∷ []) (map escape (v ∷ vs))))
      ≡ out ++ map escape (v ∷ vs)
unfolding join split_step
split-join out v [] = ap split_end (foldl-escape out [] v)
split-join out v (w ∷ vs) =
    rw (foldl-append, foldl-escape out [] v)
      (split-join (out ++ escape v ∷ []) w vs
        ∙ append_assoc out (escape v ∷ []) (map escape (w ∷ vs)))

-- Splitting gives back the escaped attributes that were joined.
pub split_escaped-join :
    (v : Text) (vs : List Text)
    → split_escaped (join (colon ∷ []) (map escape (v ∷ vs))) ≡ map escape (v ∷ vs)
split_escaped-join v vs = unfold split_escaped in split-join [] v vs

-- Escaping keeps a property of characters that the two special ones have.
module _ {ℓ} (P : ℕ → Type ℓ) (b : P backslash) (k : P colon) where
  All-escape_char : (c : ℕ) → P c → All P (escape_char c)
  unfolding escape_char
  All-escape_char c p = elim (Bool-cases (c == backslash)) [
    | inl e ↦ rw e (b, (b, tt))
    | inr e ↦ elim (Bool-cases (c == colon)) [
      | inl f ↦ rw (e, f) (b, (k, tt))
      | inr f ↦ rw (e, f) (p, tt)
    ]
  ]

  pub All-escape : (v : Text) → All P v → All P (escape v)
  All-escape [] h = rw escape_nil tt
  All-escape (c ∷ v) (p, h) =
      rw escape-cons
        (All-append P (escape_char c) (escape v) (All-escape_char c p) (All-escape v h))

-- A text that ends in a character other than a space.
abbrev pub EndsInk : Text → Type 0
EndsInk [] = ⊥
EndsInk (c ∷ []) = is_space c ≡ false
EndsInk (c ∷ d ∷ s) = EndsInk (d ∷ s)

pub EndsInk-append : (s t : Text) → EndsInk t → EndsInk (s ++ t)
EndsInk-append [] t h = h
EndsInk-append (c ∷ []) [] h = elim h [ ]
EndsInk-append (c ∷ []) (d ∷ t) h = h
EndsInk-append (c ∷ d ∷ s) t h = EndsInk-append (d ∷ s) t h

pub rstrip-EndsInk : (s : Text) → EndsInk s → rstrip s ≡ s
unfolding rstrip
rstrip-EndsInk [] h = elim h [ ]
rstrip-EndsInk (c ∷ []) h = rw h
rstrip-EndsInk (c ∷ d ∷ s) h = rw (rstrip-EndsInk (d ∷ s) h)

EndsInk-escape_char : (c : ℕ) → is_space c ≡ false → EndsInk (escape_char c)
unfolding escape_char
EndsInk-escape_char c h = elim (Bool-cases (c == backslash)) [
  | inl e ↦ rw e (unfold is_space in refl)
  | inr e ↦ elim (Bool-cases (c == colon)) [
    | inl f ↦ rw (e, f) (unfold is_space in refl)
    | inr f ↦ rw (e, f) h
  ]
]

pub EndsInk-escape : (v : Text) → EndsInk v → EndsInk (escape v)
EndsInk-escape [] h = elim h [ ]
EndsInk-escape (c ∷ []) h = rw (escape-cons, escape_nil, append-nil) (EndsInk-escape_char c h)
EndsInk-escape (c ∷ d ∷ s) h =
    rw escape-cons (EndsInk-append (escape_char c) (escape (d ∷ s)) (EndsInk-escape (d ∷ s) h))
