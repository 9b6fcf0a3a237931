-- ===== src/Catalog/Spelling.antt =====
-- reconkg/catalog.py: `normalise_cve` on every spelling of an identifier.
use reconkg.Base.{
  sym, ◌∙◌, append-nil, ℕ, ◌≤◌, true, false, some, [], ◌∷◌, ◌++◌, length, all, ◌≡◌, refl, ap, arith,
  and_true,
}
use reconkg.Base.Text.{Text, codes, lower, text_eq}
use reconkg.Version.{is_digit}
use reconkg.Catalog.{
  digits_exactly, is_joiner, skip_joiner, long_number, number_behind, cve_at, find_cve, cve_text,
  or_bare, normalise_cve, ExploitCatalog, records_for, cve_key,
}
use reconkg.Catalog.Identifier.{IsNumbered, digits_exactly-append, long_number-all, normalise_once}

-- A separator, or none.
abbrev pub IsGap : Text → Type 0
IsGap [] = Unit
IsGap (c ∷ []) = is_joiner c ≡ true
IsGap (c ∷ d ∷ s) = ⊥

-- An identifier in any of its spellings: `CVE` in any case, and any separator or none before each number.
abbrev pub spelled : (c v e : ℕ) → (before between : Text) → (year number : Text) → Text
spelled c v e before between year number = c ∷ v ∷ e ∷ (before ++ (year ++ (between ++ number)))

digit_joins : (c : ℕ) → is_digit c ≡ true → is_joiner c ≡ false
unfolding is_digit is_joiner
digit_joins c h = ground (arith, h)

skip-gap :
    (gap ds more : Text)
    → IsGap gap
    → all is_digit ds ≡ true
    → 4 ≤ length ds
    → skip_joiner (gap ++ (ds ++ more)) ≡ ds ++ more
unfolding skip_joiner
skip-gap [] [] more g d l = absurd (omega arith)
skip-gap [] (c ∷ ds) more g d l =
    rw (digit_joins c (and_true (is_digit c) (all is_digit ds) d).0) refl
skip-gap (c ∷ []) ds more g d l = rw g refl
skip-gap (c ∷ e ∷ gap) ds more g d l = elim g [ ]

behind-gap :
    (year number s : Text)
    → IsNumbered (year, number)
    → skip_joiner s ≡ number
    → number_behind (some (year, s)) ≡ some (year, number)
unfolding number_behind
behind-gap year number s n same =
    let long : long_number (skip_joiner s) ≡ some (number, []) =
      ap long_number same
      ∙ long_number-all number n.number_digits n.number_length.0 n.number_length.1 in
    rw (number_behind, long) refl

numbers-spelled :
    (before between year number : Text)
    → IsGap before
    → IsGap between
    → IsNumbered (year, number)
    → number_behind (digits_exactly 4 (skip_joiner (before ++ (year ++ (between ++ number)))))
      ≡ some (year, number)
numbers-spelled before between year number g h n =
    let four : 4 ≤ length year = omega (arith, n.year_length) in
    let after : skip_joiner (between ++ (number ++ [])) ≡ number ++ [] =
      skip-gap between number [] h n.number_digits n.number_length.0 in
    let same : skip_joiner (between ++ number) ≡ number =
      ap (λ t. skip_joiner (between ++ t)) (sym (append-nil number))
      ∙ (after ∙ append-nil number) in
    rw
      (
        skip-gap before year (between ++ number) g n.year_digits four,
        digits_exactly-append 4 year (between ++ number) n.year_digits n.year_length,
      )
      (behind-gap year number (between ++ number) n same)

cve_at-spelled :
    (c v e : ℕ) (before between year number : Text)
    → text_eq (lower (c ∷ v ∷ e ∷ [])) (codes "cve") ≡ true
    → IsGap before
    → IsGap between
    → IsNumbered (year, number)
    → cve_at (spelled c v e before between year number) ≡ some (year, number)
unfolding cve_at
cve_at-spelled c v e before between year number w g h n =
    rw (w, numbers-spelled before between year number g h n) refl

-- Every spelling of an identifier, `CVE` in any case and its numbers of 4 and of 4 to 7 digits behind `-`, `_`,
-- a space or nothing, is normalised to `CVE-`, the year, `-` and the number, which is normalised to itself;
-- and the records of a catalogue are the same under each.
pub normalise_cve-spelled :
    (c v e : ℕ) (before between year number : Text)
    → text_eq (lower (c ∷ v ∷ e ∷ [])) (codes "cve") ≡ true
    → IsGap before
    → IsGap between
    → IsNumbered (year, number)
    → (catalog : ExploitCatalog)
    → (normalise_cve (spelled c v e before between year number)
        ≡ some (codes "CVE-" ++ (year ++ b'-' ∷ number)))
      × (normalise_cve (codes "CVE-" ++ (year ++ b'-' ∷ number))
          ≡ some (codes "CVE-" ++ (year ++ b'-' ∷ number)))
      × (records_for catalog (spelled c v e before between year number)
          ≡ records_for catalog (codes "CVE-" ++ (year ++ b'-' ∷ number)))
unfolding normalise_cve or_bare cve_text records_for cve_key find_cve
normalise_cve-spelled c v e before between year number w g h n catalog =
    let found : find_cve (spelled c v e before between year number) ≡ some (year, number) =
      rw (find_cve, cve_at-spelled c v e before between year number w g h n) refl in
    let once : normalise_cve (spelled c v e before between year number)
        ≡ some (cve_text (year, number)) =
      rw found refl in
    let twice : normalise_cve (cve_text (year, number)) ≡ some (cve_text (year, number)) =
      normalise_once (year, number) n in
    (once, twice, rw (records_for, cve_key, once, twice) refl)
