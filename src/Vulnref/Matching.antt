-- ===== src/Vulnref/Matching.antt =====
-- When an entry of the reference matches a fingerprint.
use reconkg.Base.{
  Bool, true, false, Option, none, some, List, [], ◌∷◌, if◌then◌else◌, is_empty, All, ◌≡◌, ◌⊎◌, ◌↔◌,
  inl, inr, refl, arith, Bool-cases,
}
use reconkg.Base.Text.{Text, contains, lower, strip}
use reconkg.Version.{Satisfied, unparseable, unsupported, answer, version_satisfies}
use reconkg.Cpe.{Cpe}
use reconkg.Cpe.Applicability.{CpeRange, matches}
use reconkg.Cpe.Applicability.Decision.{Applies, matches_iff}
use reconkg.Vulnref.{
  Claim, VulnEntry, or_empty, all_satisfied, judge, product_match, with_method, first_statement,
  observed_cpe, match_entry, entry_matches, Reason,
}

abbrev pub Constrains : Text → Text × Text → Type 0
Constrains version c = version_satisfies version c.0 c.1 ≡ answer true

-- One round of `all`, on a test already made.
all_satisfied_step :
    (v op bound : Text) (cs : List (Text × Text)) (r : Satisfied)
    → version_satisfies v op bound ≡ r
    → all_satisfied v ((op, bound) ∷ cs) ≡ answer true
    → (r ≡ answer true) × (all_satisfied v cs ≡ answer true)
unfolding all_satisfied
all_satisfied_step v op bound cs r e h = ground arith

pub all_satisfied_sound :
    (v : Text) (cs : List (Text × Text)) → all_satisfied v cs ≡ answer true → All (Constrains v) cs
all_satisfied_sound v [] h = tt
all_satisfied_sound v ((op, bound) ∷ cs) h =
    let (here, later) = all_satisfied_step v op bound cs _ refl h in
    (here, all_satisfied_sound v cs later)

pub all_satisfied_complete :
    (v : Text) (cs : List (Text × Text)) → All (Constrains v) cs → all_satisfied v cs ≡ answer true
unfolding all_satisfied
all_satisfied_complete v [] h = refl
all_satisfied_complete v ((op, bound) ∷ cs) (p, h) =
    rw (p, all_satisfied) (all_satisfied_complete v cs h)

-- What the version has to be for the product fallback.
abbrev pub VersionFits : Bool → VulnEntry → Text → Type 0
VersionFits true e v = e.requires_version ≡ false
VersionFits false e v = All (Constrains v) e.constraints

pub record ProductApplies (e : VulnEntry) (fp : Claim) : Type 0 where
  pub criterion : is_empty (lower (strip e.product_match)) ≡ false
  pub product : is_empty (lower (or_empty fp.product)) ≡ false
  pub contained : contains (lower (strip e.product_match)) (lower (or_empty fp.product)) ≡ true
  pub version : VersionFits (is_empty (or_empty fp.version)) e (or_empty fp.version)

abbrev pub Exists : {A : Type 0} → (A → Type 0) → List A → Type 0
Exists P [] = ⊥
Exists P (x ∷ xs) = P x ⊎ Exists P xs

abbrev pub EntryApplies : VulnEntry → Claim → Option Cpe → Type 0
EntryApplies e fp none = ProductApplies e fp
EntryApplies e fp (some o) = elim e.cpe_ranges [
  | [] ↦ ProductApplies e fp
  | r ∷ rs ↦ Exists (λ s. Applies s o) (r ∷ rs)
]

judge-true :
    (e : VulnEntry) (p v : Text) (r : Satisfied) → (judge e p v r).0 ≡ true → r ≡ answer true
unfolding judge
judge-true e p v (unparseable t) h = cc
judge-true e p v (unsupported t) h = cc
judge-true e p v (answer true) h = refl
judge-true e p v (answer false) h = cc

abbrev Judged : Bool → VulnEntry → Claim → Type 0
Judged true e fp = e.requires_version ≡ false
Judged false e fp =
    (judge e (or_empty fp.product) (or_empty fp.version)
      (all_satisfied (or_empty fp.version) e.constraints)).0
    ≡ true

product_match_guards :
    (e : VulnEntry) (fp : Claim)
    → (product_match e fp).0 ≡ true
    → (is_empty (lower (strip e.product_match)) ≡ false)
      × (is_empty (lower (or_empty fp.product)) ≡ false)
      × (contains (lower (strip e.product_match)) (lower (or_empty fp.product)) ≡ true)
      × Judged (is_empty (or_empty fp.version)) e fp
unfolding product_match
product_match_guards e fp h = ground arith

version_of_Judged :
    (b : Bool) (e : VulnEntry) (fp : Claim) → Judged b e fp → VersionFits b e (or_empty fp.version)
version_of_Judged true e fp h = h
version_of_Judged false e fp h =
    all_satisfied_sound (or_empty fp.version) e.constraints
      (judge-true e (or_empty fp.product) (or_empty fp.version) _ h)

product_match_sound :
    (e : VulnEntry) (fp : Claim) → (product_match e fp).0 ≡ true → ProductApplies e fp
product_match_sound e fp h =
    let (c, p, k, j) = product_match_guards e fp h in
    record { criterion = c; product = p; contained = k; version = version_of_Judged _ e fp j }

product_match_complete :
    (e : VulnEntry) (fp : Claim) → ProductApplies e fp → (product_match e fp).0 ≡ true
unfolding product_match judge
product_match_complete e fp a = elim (Bool-cases (is_empty (or_empty fp.version))) [
  | inl b ↦
      let v : e.requires_version ≡ false = rw b at a.version in
      rw (a.criterion, a.product, a.contained, b, v)
  | inr b ↦
      let v : All (Constrains (or_empty fp.version)) e.constraints = rw b at a.version in
      rw (a.criterion, a.product, a.contained, b, all_satisfied_complete _ _ v, judge)
]

first_statement-cons :
    (r : CpeRange) (rs : List CpeRange) (o : Cpe) (X : Type 0)
    → ((first_statement rs o).matched ≡ true) ↔ X
    → ((first_statement (r ∷ rs) o).matched ≡ true) ↔ (Applies r o ⊎ X)
unfolding first_statement
first_statement-cons r rs o X ih = (to, from)
  where
    to : (first_statement (r ∷ rs) o).matched ≡ true → Applies r o ⊎ X
    to h = elim (Bool-cases (matches r o).matched) [
      | inl e ↦ inl ((matches_iff r o).0 e)
      | inr e ↦ inr (ih.0 (rw e at h))
    ]

    from : Applies r o ⊎ X → (first_statement (r ∷ rs) o).matched ≡ true
    from (inl a) = rw ((matches_iff r o).1 a)
    from (inr a) = elim (Bool-cases (matches r o).matched) [ inl e ↦ rw e | inr e ↦ rw e (ih.1 a) ]

first_statement_iff :
    (rs : List CpeRange) (o : Cpe)
    → ((first_statement rs o).matched ≡ true) ↔ Exists (λ s. Applies s o) rs
first_statement_iff [] o = (λ h. unfold first_statement in cc, λ h. elim h [ ])
first_statement_iff (r ∷ rs) o = first_statement-cons r rs o _ (first_statement_iff rs o)

with_method_matched : (v : Option Text) (a : Bool × Reason) → (with_method v a).matched ≡ a.0
unfolding with_method
with_method_matched v (true, why) = refl
with_method_matched v (false, why) = refl

-- An entry matches a fingerprint exactly when one of its statements applies to the observed CPE
-- name, if it has statements and a name is observed, and else when its product text occurs in the
-- fingerprint's and every constraint holds of the version, or no version is known and none needed.
pub entry_matches_iff :
    (e : VulnEntry) (fp : Claim)
    → ((entry_matches e fp).matched ≡ true) ↔ EntryApplies e fp (observed_cpe fp)
unfolding entry_matches
entry_matches_iff e fp = go (observed_cpe fp)
  where
    fallback : ((with_method fp.version (product_match e fp)).matched ≡ true) ↔ ProductApplies e fp
    fallback = (
      λ h. product_match_sound e fp (rw with_method_matched at h),
      λ a. rw with_method_matched (product_match_complete e fp a),
    )

    statements :
        (o : Cpe) (rs : List CpeRange)
        → ((if is_empty rs
              then with_method fp.version (product_match e fp)
              else first_statement rs o).matched
            ≡ true)
          ↔ (elim rs [ [] ↦ ProductApplies e fp | s ∷ ss ↦ Exists (λ s. Applies s o) (s ∷ ss) ])
    statements o [] = fallback
    statements o (r ∷ rs) = first_statement_iff (r ∷ rs) o

    go : (o : Option Cpe) → ((match_entry e fp o).matched ≡ true) ↔ EntryApplies e fp o
    go none = unfold match_entry in fallback
    go (some o) = unfold match_entry in statements o e.cpe_ranges
