-- ===== src/Leads/Ranked.antt =====
-- reconkg/vulnref.py: the leads that `build_leads` gives.
use reconkg.Base.{
  ℕ, zero, suc, ◌*◌, ◌≤◌, Bool, true, false, ◌&&◌, not, Option, none, some, List, [], ◌∷◌,
  if◌then◌else◌, leb, ltb, is_empty, length, take, any, All, ◌≡◌, refl, arith, Bool-cases, ◌⊎◌, inl,
  inr,
}
use reconkg.Base.Text.{Text, text_eq, text_eq_refl}
use reconkg.Base.Sort.{IsOrdered, All-sort, All-take, sort-IsOrdered, take-IsOrdered}
use reconkg.Cpe.Applicability.{MatchMethod}
use reconkg.Models.{lower_of}
use reconkg.Models.Graph.{Fingerprint, VulnLead}
use reconkg.Vulnref.{VulnEntry, or_empty, entry_matches}
use reconkg.Catalog.{ExploitCatalog, maturity_weight}
use reconkg.Catalog.Maturity.{infer_maturity_bound}
use reconkg.Leads.{
  CorrelationConfig, Signals, claim_of, score_scale, priority_scale, maturity_of, score,
  with_signals, with_penalty, priority, new_lead, leads_of, build_leads,
}

abbrev pub priority_of : VulnLead → ℕ
priority_of l = l.priority

pub mul_bound : (p q m n : ℕ) → p ≤ m → q ≤ n → p * q ≤ m * n
mul_bound zero q m n h k = omega arith
mul_bound (suc p) q zero n h k = absurd (omega arith)
mul_bound (suc p) q (suc m) n h k = omega (arith, mul_bound p q m n (omega arith) k)

pub lower_of_bound : (a b : ℕ) → lower_of a b ≤ b
unfolding lower_of
lower_of_bound a b = ground arith

length-take_bound : (n : ℕ) (ls : List VulnLead) → length (take n ls) ≤ n
length-take_bound zero ls = omega arith
length-take_bound (suc n) [] = omega arith
length-take_bound (suc n) (l ∷ ls) = omega (arith, length-take_bound n ls)

All-map_imp :
    (P Q : VulnLead → Type 0) (ls : List VulnLead)
    → ((l : VulnLead) → P l → Q l)
    → All P ls
    → All Q ls
All-map_imp P Q [] f h = tt
All-map_imp P Q (l ∷ ls) f (p, h) = (f l p, All-map_imp P Q ls f h)

one_if :
    (P : VulnLead → Type 0) (b : Bool) (l : VulnLead) (ls : List VulnLead)
    → (b ≡ true → P l)
    → All P ls
    → All P (if b then l ∷ ls else ls)
one_if P true l ls p h = (p refl, h)
one_if P false l ls p h = h

maturity_of_bound :
    (catalog : Option ExploitCatalog) (e : VulnEntry)
    → maturity_weight e.maturity ≤ maturity_weight (maturity_of catalog e)
unfolding maturity_of
maturity_of_bound none e = omega arith
maturity_of_bound (some catalog) e = (infer_maturity_bound catalog e.cve_id e.maturity).0

-- An entry that matches a fingerprint accounts for a lead, of which the maturity is at least the entry's.
abbrev pub accounts : Fingerprint → VulnLead → VulnEntry → Bool
accounts f l e =
    text_eq e.cve_id l.cve_id
    && (entry_matches e (claim_of f)).matched
    && leb (maturity_weight e.maturity) (maturity_weight l.exploit_maturity)

-- A rounding to four places does not leave the numbers from 0 to 1.
abbrev pub IsRounding : ((scale x : ℕ) → ℕ) → Type 0
IsRounding rounded = (scale x : ℕ) → x ≤ scale → rounded scale x ≤ 10000

module _ (rounded : (scale x : ℕ) → ℕ) (within : IsRounding rounded) where
  with_signals_bound :
      (signals : Option Signals) (cve : Text) (p : ℕ)
      → p ≤ 10000
      → with_signals rounded signals cve p ≤ 10000
  unfolding with_signals
  with_signals_bound none cve p h = h
  with_signals_bound (some s) cve p h = within priority_scale _ (lower_of_bound _ priority_scale)

  with_penalty_bound :
      (b : Bool) (penalty p : ℕ)
      → penalty ≤ 10000
      → p ≤ 10000
      → with_penalty rounded b penalty p ≤ 10000
  unfolding with_penalty
  with_penalty_bound true penalty p h k =
      within priority_scale (p * penalty) (omega (arith, mul_bound p penalty 10000 10000 k h))
  with_penalty_bound false penalty p h k = k

  module _ (now : ℕ) (cfg : CorrelationConfig) (catalog : Option ExploitCatalog)
      (contradicted : Bool) (signals : Option Signals) (backport : cfg.backport_penalty ≤ 10000)
      (contradiction : cfg.contradiction_penalty ≤ 10000) where
    priority_bound :
        (f : Fingerprint) (e : VulnEntry) (m : MatchMethod)
        → priority rounded now cfg catalog contradicted signals f e m ≤ 10000
    unfolding priority score
    priority_bound f e m =
        with_penalty_bound contradicted cfg.contradiction_penalty _ contradiction (
          with_penalty_bound _ cfg.backport_penalty _ backport (
            with_signals_bound signals e.cve_id _
              (within score_scale _ (lower_of_bound _ score_scale))))

    abbrev pub IsLead : Fingerprint → List VulnEntry → VulnLead → Type 0
    IsLead f reference l =
        (l.priority ≤ 10000)
        × (l.matched_fingerprint_id ≡ f.id)
        × (any (accounts f l) reference ≡ true)

    one_more :
        (f : Fingerprint) (e : VulnEntry) (es : List VulnEntry) (l : VulnLead)
        → IsLead f es l
        → IsLead f (e ∷ es) l
    one_more f e es l (p, q, r) = (p, q, rw r (ground arith))

    new_lead-accounts :
        (f : Fingerprint) (e : VulnEntry)
        → (entry_matches e (claim_of f)).matched ≡ true
        → accounts f
            (new_lead rounded now cfg catalog contradicted signals f e
              (entry_matches e (claim_of f)))
            e
          ≡ true
    unfolding new_lead
    new_lead-accounts f e h =
        let kept : leb (maturity_weight e.maturity) (maturity_weight (maturity_of catalog e))
            ≡ true =
          ground (arith, maturity_of_bound catalog e) in
        rw (text_eq_refl e.cve_id, h, kept) refl

    new_lead-IsLead :
        (f : Fingerprint) (e : VulnEntry) (es : List VulnEntry)
        → (entry_matches e (claim_of f)).matched ≡ true
        → IsLead f (e ∷ es) (
            new_lead rounded now cfg catalog contradicted signals f e
              (entry_matches e (claim_of f)))
    unfolding new_lead
    new_lead-IsLead f e es h = (priority_bound f e _, refl, rw (new_lead-accounts f e h) refl)

    leads_of-IsLead :
        (f : Fingerprint) (es : List VulnEntry)
        → All (IsLead f es) (leads_of rounded now cfg catalog contradicted signals f es)
    unfolding leads_of
    leads_of-IsLead f [] = tt
    leads_of-IsLead f (e ∷ es) =
        let rest : All (IsLead f (e ∷ es))
            (leads_of rounded now cfg catalog contradicted signals f es) =
          All-map_imp (IsLead f es) (IsLead f (e ∷ es)) _ (one_more f e es)
            (leads_of-IsLead f es) in
        elim (Bool-cases (is_empty (or_empty f.version) && not cfg.include_unversioned)) [
          | inl v ↦ rw v rest
          | inr v ↦ rw v (one_if (IsLead f (e ∷ es)) _ _ _ (new_lead-IsLead f e es) rest)
        ]

    -- If a rounding to four places stays between 0 and 1, and so do the penalties: the leads of a fingerprint
    -- have the highest priorities first and are at most as many as are configured; each has a priority of at
    -- most 1 and names the fingerprint, and an entry of the reference with its identifier matches the
    -- fingerprint and is of no higher maturity. A fingerprint below the threshold has none.
    pub build_leads-IsRanked :
        (f : Fingerprint) (reference : List VulnEntry)
        → IsOrdered priority_of
            (build_leads rounded now cfg catalog contradicted signals f reference)
          × (length (build_leads rounded now cfg catalog contradicted signals f reference)
              ≤ cfg.max_leads_per_service)
          × All
              (IsLead f reference)
              (build_leads rounded now cfg catalog contradicted signals f reference)
          × ((cfg.min_confidence ≤ f.node.provenance.confidence)
              ⊎ (build_leads rounded now cfg catalog contradicted signals f reference ≡ []))
    unfolding build_leads
    build_leads-IsRanked f reference =
        elim (Bool-cases (ltb f.node.provenance.confidence cfg.min_confidence)) [
          | inl e ↦ rw e (tt, omega arith, tt, inr refl)
          | inr e ↦ rw e (
            take-IsOrdered priority_of cfg.max_leads_per_service _ (
                sort-IsOrdered priority_of
                  (leads_of rounded now cfg catalog contradicted signals f reference)),
            length-take_bound cfg.max_leads_per_service _,
            All-take priority_of (IsLead f reference) cfg.max_leads_per_service _
                (All-sort priority_of (IsLead f reference) _ (leads_of-IsLead f reference)),
            inl (ground (arith, e)),
          )
        ]
