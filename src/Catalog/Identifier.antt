-- ===== src/Catalog/Identifier.antt =====
-- reconkg/catalog.py: the identifiers that `normalise_cve` gives.
use reconkg.Base.{
  ℕ, zero, suc, ◌≤◌, true, ◌&&◌, Option, none, some, [], ◌∷◌, ◌++◌, leb, is_empty, length, all, ◌≡◌,
  refl, ap, subst, ◌==◌, arith, Bool-cases, Option-cases, and_true, inl, inr,
}
use reconkg.Base.Text.{Text, codes, lower, lower_char, text_eq, strip}
use reconkg.Version.{is_digit}
use reconkg.Catalog.{
  digits_exactly, digits_up_to, is_joiner, skip_joiner, long_number, number_behind, cve_at,
  find_cve, bare_number, cve_text, or_bare, normalise_cve,
}

-- Four digits, and four to seven.
pub record IsNumbered (found : Text × Text) : Type 0 where
  pub year_digits : all is_digit found.0 ≡ true
  pub year_length : length found.0 ≡ 4
  pub number_digits : all is_digit found.1 ≡ true
  pub number_length : (4 ≤ length found.1) × (length found.1 ≤ 7)

digits_exactly-digits :
    (n : ℕ) (s ds more : Text)
    → digits_exactly n s ≡ some (ds, more)
    → (all is_digit ds ≡ true) × (length ds ≡ n)
unfolding digits_exactly
digits_exactly-digits zero s ds more h =
    let e : [] ≡ ds = ground (arith, h) in
    subst (λ d. (all is_digit d ≡ true) × (length d ≡ 0)) e (refl, refl)
digits_exactly-digits (suc n) [] ds more h = cc
digits_exactly-digits (suc n) (c ∷ s) ds more h = elim (Option-cases (digits_exactly n s)) [
  | inl e ↦ absurd (ground (arith, h, e))
  | inr ((es, rest), e) ↦ elim (Bool-cases (is_digit c)) [
    | inr n ↦ absurd (ground (arith, h, e, n))
    | inl d ↦
        let same : c ∷ es ≡ ds = ground (arith, h, e, d) in
        let (p, q) = digits_exactly-digits n s es rest e in
        subst (λ t. (all is_digit t ≡ true) × (length t ≡ suc n)) same (rw (d, p) refl, ap suc q)
  ]
]

pub digits_exactly-append :
    (n : ℕ) (ds more : Text)
    → all is_digit ds ≡ true
    → length ds ≡ n
    → digits_exactly n (ds ++ more) ≡ some (ds, more)
unfolding digits_exactly
digits_exactly-append zero [] more d l = refl
digits_exactly-append zero (c ∷ ds) more d l = absurd (omega arith)
digits_exactly-append (suc n) [] more d l = absurd (omega arith)
digits_exactly-append (suc n) (c ∷ ds) more d l =
    let (p, q) = and_true (is_digit c) (all is_digit ds) d in
    rw (p, digits_exactly-append n ds more q (omega arith)) refl

digits_up_to-digits :
    (n : ℕ) (s : Text)
    → (all is_digit (digits_up_to n s).0 ≡ true) × (length (digits_up_to n s).0 ≤ n)
unfolding digits_up_to
digits_up_to-digits zero s = (refl, omega arith)
digits_up_to-digits (suc n) [] = (refl, omega arith)
digits_up_to-digits (suc n) (c ∷ s) = elim (Bool-cases (is_digit c)) [
  | inl e ↦ let (p, q) = digits_up_to-digits n s in rw e (rw (e, p) refl, omega (arith, q))
  | inr e ↦ rw e (refl, omega arith)
]

digits_up_to-all :
    (n : ℕ) (ds : Text) → all is_digit ds ≡ true → length ds ≤ n → digits_up_to n ds ≡ (ds, [])
unfolding digits_up_to
digits_up_to-all zero [] d l = refl
digits_up_to-all zero (c ∷ ds) d l = absurd (omega arith)
digits_up_to-all (suc n) [] d l = refl
digits_up_to-all (suc n) (c ∷ ds) d l =
    let (p, q) = and_true (is_digit c) (all is_digit ds) d in
    rw (p, digits_up_to-all n ds q (omega arith)) refl

long_number_inv :
    (s ds more : Text)
    → long_number s ≡ some (ds, more)
    → (all is_digit ds ≡ true) × (4 ≤ length ds) × (length ds ≤ 7)
unfolding long_number
long_number_inv s ds more h =
    let (p, q) = digits_up_to-digits 7 s in
    elim (Bool-cases (leb 4 (length (digits_up_to 7 s).0))) [
      | inr e ↦ absurd (ground (arith, h, e))
      | inl e ↦
          let same : (digits_up_to 7 s).0 ≡ ds = ground (arith, h, e) in
          subst (λ t. (all is_digit t ≡ true) × (4 ≤ length t) × (length t ≤ 7)) same
            (p, ground (arith, e), q)
    ]

numbered :
    (s year rest t number more : Text) (found : Text × Text)
    → digits_exactly 4 s ≡ some (year, rest)
    → long_number t ≡ some (number, more)
    → (year, number) ≡ found
    → IsNumbered found
numbered s year rest t number more found y n e =
    let (a, b) = digits_exactly-digits 4 s year rest y in
    let (c, d, k) = long_number_inv t number more n in
    subst IsNumbered e
      (record { year_digits = a; year_length = b; number_digits = c; number_length = (d, k) })

number_behind-IsNumbered :
    (s : Text) (found : Text × Text)
    → number_behind (digits_exactly 4 s) ≡ some found
    → IsNumbered found
unfolding number_behind
number_behind-IsNumbered s found h = elim (Option-cases (digits_exactly 4 s)) [
  | inl e ↦ absurd (ground (arith, h, e))
  | inr ((year, rest), e) ↦ elim (Option-cases (long_number (skip_joiner rest))) [
    | inl n ↦ absurd (ground (arith, h, e, n))
    | inr ((number, more), n) ↦
        numbered s year rest (skip_joiner rest) number more found e n (ground (arith, h, e, n))
  ]
]

cve_at-IsNumbered : (s : Text) (found : Text × Text) → cve_at s ≡ some found → IsNumbered found
unfolding cve_at
cve_at-IsNumbered [] found h = cc
cve_at-IsNumbered (c ∷ []) found h = cc
cve_at-IsNumbered (c ∷ v ∷ []) found h = cc
cve_at-IsNumbered (c ∷ v ∷ e ∷ s) found h =
    elim (Bool-cases (text_eq (lower (c ∷ v ∷ e ∷ [])) (codes "cve"))) [
      | inl t ↦ number_behind-IsNumbered (skip_joiner s) found (ground (arith, h, t))
      | inr t ↦ absurd (ground (arith, h, t))
    ]

find_cve-IsNumbered : (s : Text) (found : Text × Text) → find_cve s ≡ some found → IsNumbered found
unfolding find_cve
find_cve-IsNumbered [] found h = cc
find_cve-IsNumbered (c ∷ s) found h = elim (Option-cases (cve_at (c ∷ s))) [
  | inl e ↦ find_cve-IsNumbered s found (ground (arith, h, e))
  | inr (f, e) ↦ cve_at-IsNumbered (c ∷ s) found (ground (arith, h, e))
]

bare_number-IsNumbered :
    (s : Text) (found : Text × Text)
    → bare_number (digits_exactly 4 s) ≡ some found
    → IsNumbered found
unfolding bare_number
bare_number-IsNumbered s found h = elim (Option-cases (digits_exactly 4 s)) [
  | inl e ↦ absurd (ground (arith, h, e))
  | inr ((year, []), e) ↦ absurd (ground (arith, h, e))
  | inr ((year, c ∷ t), e) ↦ elim (Option-cases (long_number t)) [
    | inl n ↦ absurd (ground (arith, h, e, n))
    | inr ((number, more), n) ↦ elim (Bool-cases (c == b'-' && is_empty more)) [
      | inl b ↦ numbered s year (c ∷ t) t number more found e n (ground (arith, h, e, n, b))
      | inr b ↦ absurd (ground (arith, h, e, n, b))
    ]
  ]
]

pub long_number-all :
    (ds : Text)
    → all is_digit ds ≡ true
    → 4 ≤ length ds
    → length ds ≤ 7
    → long_number ds ≡ some (ds, [])
unfolding long_number
long_number-all ds d l m =
    let enough : leb 4 (length ds) ≡ true = ground arith in
    rw (digits_up_to-all 7 ds d m, enough) refl

numbers-append :
    (found : Text × Text)
    → IsNumbered found
    → number_behind (digits_exactly 4 (found.0 ++ b'-' ∷ found.1)) ≡ some found
unfolding number_behind skip_joiner is_joiner
numbers-append (year, number) n =
    rw
      (
        digits_exactly-append 4 year (b'-' ∷ number) n.year_digits n.year_length,
        number_behind,
        long_number-all number n.number_digits n.number_length.0 n.number_length.1,
      )
      refl

-- An identifier that was put together is found again at its start.
cve_at-cve_text : (found : Text × Text) → IsNumbered found → cve_at (cve_text found) ≡ some found
unfolding cve_at cve_text skip_joiner is_joiner lower lower_char
cve_at-cve_text found n = numbers-append found n

find-cve_text : (found : Text × Text) → IsNumbered found → find_cve (cve_text found) ≡ some found
unfolding find_cve cve_text
find-cve_text found n = rw (find_cve, cve_at-cve_text found n) refl

pub normalise_once :
    (found : Text × Text)
    → IsNumbered found
    → normalise_cve (cve_text found) ≡ some (cve_text found)
unfolding normalise_cve or_bare cve_text
normalise_once found n = rw (find-cve_text found n) refl

or_bare_inv :
    (raw cve : Text) (o : Option (Text × Text))
    → find_cve raw ≡ o
    → or_bare raw o ≡ some cve
    → (found : Text × Text) × IsNumbered found × (cve_text found ≡ cve)
unfolding or_bare
or_bare_inv raw cve (some found) e h = (found, find_cve-IsNumbered raw found e, ground (arith, h))
or_bare_inv raw cve none e h = elim (Option-cases (bare_number (digits_exactly 4 (strip raw)))) [
  | inl n ↦ absurd (ground (arith, h, n))
  | inr (found, n) ↦ (found, bare_number-IsNumbered (strip raw) found n, ground (arith, h, n))
]

-- What a text is normalised to is normalised to itself.
pub normalise_cve-normalise_cve :
    (raw cve : Text) → normalise_cve raw ≡ some cve → normalise_cve cve ≡ some cve
unfolding normalise_cve
normalise_cve-normalise_cve raw cve h = elim (Bool-cases (is_empty raw)) [
  | inl e ↦ absurd (ground (arith, h, e))
  | inr e ↦
      let (found, n, same) = or_bare_inv raw cve (find_cve raw) refl (ground (arith, h, e)) in
      subst (λ c. normalise_cve c ≡ some c) same (normalise_once found n)
]
