-- ===== src/Version/Laws.antt =====
-- reconkg/vulnref.py: what the matchers rely on of `compare_versions` and `version_satisfies`.
use reconkg.Base.{
  ◌↔◌, ℕ, Ordering, Bool, true, false, ◌||◌, List, [], ◌∷◌, ◌++◌, ◌≡◌, ◌≢◌, refl, sym, ◌∙◌, ap,
  arith, append_assoc, any, if◌then◌else◌, Bool-cases, inl, inr,
}
use reconkg.Base.Text.{Text, codes, lower}
use reconkg.Version.{
  is_lt, is_gt, is_eq, Token, word, number, Run, outside, digits, letters, is_digit, is_alpha,
  next_run, close, scan, parse_version, compare_parsed, compare_token, absent, compare_versions,
  is_number, version_satisfies, answer, unparseable, ops, apply_op,
}
use reconkg.Version.Order.{flip, Composes}
use reconkg.Version.Padding.{
  compare_parsed-flip, compare_parsed-Composes, compare_parsed-absent, compare_parsed_suffix,
}

-- Exchanging the two versions reverses the comparison.
pub compare_versions-flip :
    (left right : Text) → compare_versions right left ≡ flip (compare_versions left right)
unfolding compare_versions
compare_versions-flip left right = compare_parsed-flip (parse_version left) (parse_version right)

pub compare_versions-Composes :
    (a b c : Text) → Composes (compare_versions a b) (compare_versions b c) (compare_versions a c)
unfolding compare_versions
compare_versions-Composes a b c =
    compare_parsed-Composes (parse_version a) (parse_version b) (parse_version c)

not_gt_of_Composes :
    (p q r : Ordering) → Composes p q r → p ≢ Ordering.gt → q ≢ Ordering.gt → r ≢ Ordering.gt
not_gt_of_Composes p q r h k l = ground arith

-- If a is not above b and b is not above c, then a is not above c.
pub compare_versions_trans :
    (a b c : Text)
    → compare_versions a b ≢ Ordering.gt
    → compare_versions b c ≢ Ordering.gt
    → compare_versions a c ≢ Ordering.gt
compare_versions_trans a b c =
    not_gt_of_Composes (compare_versions a b) (compare_versions b c) (compare_versions a c)
      (compare_versions-Composes a b c)

-- If a version is at or above one bound and below another, the first bound is below the second.
pub no_version_between :
    (v low high : Text)
    → compare_versions v low ≢ Ordering.lt
    → compare_versions v high ≡ Ordering.lt
    → compare_versions low high ≡ Ordering.lt
no_version_between v low high h k =
    go (compare_versions low v) (compare_versions v high) (compare_versions low high)
      (compare_versions-Composes low v high) (λ e. h (compare_versions-flip low v ∙ ap flip e)) k
  where
    go : (p q r : Ordering) → Composes p q r → p ≢ Ordering.gt → q ≡ Ordering.lt → r ≡ Ordering.lt
    go p q r c n e = ground arith

scan_zero : (run : Run) (v : Text) → scan run (v ++ codes ".0") ≡ scan run v ++ number 0 ∷ []
unfolding scan
scan_zero outside [] = refl
scan_zero (digits n) [] = refl
scan_zero (letters w) [] = refl
scan_zero run (c ∷ v) =
    let (found, run') = next_run run c in
    ap (λ l. found ++ l) (scan_zero run' v) ∙ sym (append_assoc found (scan run' v) (absent ∷ []))

-- A release is the same with one more ".0" behind it.
pub compare_versions_zero : (v : Text) → compare_versions (v ++ codes ".0") v ≡ Ordering.eq
unfolding compare_versions parse_version
compare_versions_zero v = rw (scan_zero outside v) (compare_parsed-absent (scan outside v))

abbrev StartsWithWord : List Token → Type 0
StartsWithWord (word v ∷ rest) = Unit
StartsWithWord _ = ⊥

scan_letters : (l w : Text) → StartsWithWord (scan (letters l) w)
unfolding scan
scan_letters l [] = tt
scan_letters l (c ∷ w) = elim (Bool-cases (is_digit c)) [
  | inl d ↦ rw (d, next_run) tt
  | inr d ↦ elim (Bool-cases (is_alpha c)) [
    | inl a ↦ rw (d, a, next_run) (scan_letters (l ++ lower (c ∷ [])) w)
    | inr a ↦ rw (d, a, next_run) tt
  ]
]

not_digit_of_alpha : (c : ℕ) → is_alpha c ≡ true → is_digit c ≡ false
unfolding is_alpha is_digit
not_digit_of_alpha c h = ground arith

next_run_boundary :
    (run : Run) (d c : ℕ)
    → is_alpha d ≡ false
    → is_alpha c ≡ true
    → next_run (next_run run d).1 c ≡ (close (next_run run d).1, letters (lower (c ∷ [])))
unfolding next_run
next_run_boundary outside d c h k = ground (arith, not_digit_of_alpha c k)
next_run_boundary (digits n) d c h k = ground (arith, not_digit_of_alpha c k)
next_run_boundary (letters l) d c h k = ground (arith, not_digit_of_alpha c k)

-- Behind a character that is no letter, a letter begins a new word.
abbrev Splits : Run → Text → ℕ → ℕ → Text → Type 0
Splits run u d c w =
    (words : List Token) × (scan run (u ++ d ∷ c ∷ w) ≡ scan run (u ++ d ∷ []) ++ words)
    × StartsWithWord words

scan_boundary :
    (run : Run) (u : Text) (d c : ℕ) (w : Text)
    → is_alpha d ≡ false
    → is_alpha c ≡ true
    → Splits run u d c w
unfolding scan
scan_boundary run [] d c w h k = (
  scan (letters (lower (c ∷ []))) w,
  rw (next_run_boundary run d c h k) (sym (append_assoc (next_run run d).0 _ _)),
  scan_letters _ w,
)
scan_boundary run (x ∷ u) d c w h k =
    let (found, run') = next_run run x in
    let (words, e, s) = scan_boundary run' u d c w h k in
    (words, rw e (sym (append_assoc found _ words)), s)

compare_parsed_words :
    (a b : List Token) → StartsWithWord b → compare_parsed (a ++ b) a ≡ Ordering.lt
compare_parsed_words a [] s = elim s [ ]
compare_parsed_words a (number n ∷ rest) s = elim s [ ]
compare_parsed_words a (word v ∷ rest) s =
    compare_parsed_suffix a (word v) rest (unfold compare_token in refl)

-- A version that goes on with a letter, behind a character that is no letter, is below the version
-- without what follows: a release candidate is below its release.
pub compare_versions_suffix :
    (u : Text) (d c : ℕ) (w : Text)
    → is_alpha d ≡ false
    → is_alpha c ≡ true
    → compare_versions (u ++ d ∷ c ∷ w) (u ++ d ∷ []) ≡ Ordering.lt
unfolding compare_versions parse_version
compare_versions_suffix u d c w h k =
    let (words, e, s) = scan_boundary outside u d c w h k in
    rw e (compare_parsed_words (scan outside (u ++ d ∷ [])) words s)

abbrev in_number : Run → Bool
in_number (digits n) = true
in_number _ = false

any_append {ℓ} :
    {A : Type ℓ} (p : A → Bool) (xs ys : List A) → any p (xs ++ ys) ≡ any p xs || any p ys
any_append p [] ys = refl
any_append p (x ∷ xs) ys = ground (arith, any_append p xs ys)

next_run-number :
    (run : Run) (c : ℕ)
    → any is_number (next_run run c).0 || in_number (next_run run c).1 ≡ in_number run || is_digit c
unfolding next_run is_number
next_run-number outside c = ground arith
next_run-number (digits n) c = ground arith
next_run-number (letters l) c = ground arith

scan-number : (run : Run) (s : Text) → any is_number (scan run s) ≡ in_number run || any is_digit s
unfolding scan
scan-number outside [] = refl
scan-number (digits n) [] = unfold is_number in refl
scan-number (letters l) [] = unfold is_number in refl
scan-number run (c ∷ s) =
    rw (any_append is_number, scan-number (next_run run c).1 s)
      (ground (arith, next_run-number run c))

-- The answer to a constraint, from the characters of the version: without a digit it is the first
-- error, whatever the operator, and otherwise the operator decides.
pub version_satisfies-eq :
    (version op bound : Text)
    → version_satisfies version op bound ≡ (
        if any is_digit version
        then apply_op op (ops op) (compare_versions version bound)
        else unparseable version)
unfolding version_satisfies
version_satisfies-eq version op bound = unfold parse_version in rw (scan-number outside version)

-- The six operators of a constraint, with what each asks of the comparison.
pub data Operator : Type 0 where
  below at_most above at_least equals differs : Operator

abbrev pub spell : Operator → Text
spell below = codes "<"
spell at_most = codes "<="
spell above = codes ">"
spell at_least = codes ">="
spell equals = codes "=="
spell differs = codes "!="

abbrev pub Meets : Operator → Ordering → Type 0
Meets below c = c ≡ Ordering.lt
Meets at_most c = c ≢ Ordering.gt
Meets above c = c ≡ Ordering.gt
Meets at_least c = c ≢ Ordering.lt
Meets equals c = c ≡ Ordering.eq
Meets differs c = c ≢ Ordering.eq

apply_op_iff :
    (o : Operator) (c : Ordering) → (apply_op (spell o) (ops (spell o)) c ≡ answer true) ↔ Meets o c
unfolding apply_op ops is_lt is_gt is_eq
apply_op_iff below c = ground arith
apply_op_iff at_most c = ground arith
apply_op_iff above c = ground arith
apply_op_iff at_least c = ground arith
apply_op_iff equals c = ground arith
apply_op_iff differs c = ground arith

-- A version satisfies a constraint exactly when it has a digit and stands to the bound as the operator says:
-- below it, not above it, above it, not below it, equal to it or not equal to it.
pub version_satisfies_iff :
    (version bound : Text) (o : Operator)
    → (version_satisfies version (spell o) bound ≡ answer true)
      ↔ ((any is_digit version ≡ true) × Meets o (compare_versions version bound))
version_satisfies_iff version bound o =
    rw (version_satisfies-eq version (spell o) bound) (elim (Bool-cases (any is_digit version)) [
      | inl e ↦ rw e (
        λ h. (refl, (apply_op_iff o (compare_versions version bound)).0 h),
        λ h. (apply_op_iff o (compare_versions version bound)).1 h.1,
      )
      | inr e ↦ rw e (λ h. cc, λ h. cc h.0)
    ])

-- An answer is the operator's, at the comparison.
pub version_satisfies_inv :
    (version op bound : Text) (b : Bool)
    → version_satisfies version op bound ≡ answer b
    → apply_op op (ops op) (compare_versions version bound) ≡ answer b
unfolding version_satisfies
version_satisfies_inv version op bound b h = ground arith
