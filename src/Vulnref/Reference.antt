-- ===== src/Vulnref/Reference.antt =====
-- reconkg/vulnref.py: the entries of `DEFAULT_REFERENCE`.
use reconkg.Base.{
  ℕ, Bool, true, false, List, [], ◌∷◌, ◌≡◌, ◌≢◌, refl, Ordering, arith, Bool-cases, inl, inr,
  Option, none, some, is_empty,
}
use reconkg.Base.Text.{Text, codes}
use reconkg.Version.{answer, compare_versions, ops, apply_op, is_lt}
use reconkg.Version.Laws.{no_version_between, version_satisfies_inv}
use reconkg.Cpe.{Cpe}
use reconkg.Vulnref.{
  VulnEntry, ExploitMaturity, weaponised, proof_of_concept, functional, Claim, entry_matches,
  observed_cpe, or_empty,
}
use reconkg.Vulnref.Matching.{
  entry_matches_iff, EntryApplies, ProductApplies, Constrains, VersionFits,
}

abbrev entry : Text → Text → Text → List (Text × Text) → ℕ → ExploitMaturity → Text → VulnEntry
entry cve title product constraints cvss maturity notes = record {
  cve_id = cve;
  title = title;
  product_match = product;
  constraints = constraints;
  cvss = cvss;
  maturity = maturity;
  requires_version = true;
  notes = notes;
  cpe_ranges = [];
  handoff = [];
}

abbrev heartbleed_low : Text
heartbleed_low = codes "1.0.1"

abbrev heartbleed_high : Text
heartbleed_high = codes "1.0.1g"

unfoldable pub heartbleed : VulnEntry
heartbleed =
    entry (codes "CVE-2014-0160") (codes "OpenSSL Heartbleed") (codes "openssl")
      ((codes ">=", heartbleed_low) ∷ (codes "<", heartbleed_high) ∷ []) 75 weaponised []

unfoldable pub default_reference : List VulnEntry
unfolding heartbleed
default_reference =
    entry (codes "CVE-2021-41773") (codes "Apache path traversal / RCE") (codes "apache")
      ((codes ">=", codes "2.4.49") ∷ (codes "<=", codes "2.4.49") ∷ []) 98 weaponised
      (codes "Only 2.4.49 with specific config; 2.4.50 is CVE-2021-42013.")
    ∷ entry (codes "CVE-2021-42013") (codes "Apache path traversal (incomplete fix)")
        (codes "apache") ((codes ">=", codes "2.4.50") ∷ (codes "<=", codes "2.4.50") ∷ []) 98
        weaponised []
    ∷ entry (codes "CVE-2019-0211") (codes "Apache privilege escalation") (codes "apache")
        ((codes ">=", codes "2.4.17") ∷ (codes "<=", codes "2.4.38") ∷ []) 78 proof_of_concept []
    ∷ entry (codes "CVE-2018-15473") (codes "OpenSSH username enumeration") (codes "openssh")
        ((codes "<", codes "7.7") ∷ []) 53 functional []
    ∷ entry (codes "CVE-2023-38408") (codes "OpenSSH ssh-agent forwarding RCE") (codes "openssh")
        ((codes "<", codes "9.3") ∷ []) 98 proof_of_concept
        (codes "Requires agent forwarding to an attacker-controlled host.")
    ∷ entry (codes "CVE-2017-0144") (codes "SMBv1 remote code execution (MS17-010)") (codes "samba")
        ((codes "<", codes "4.6.4") ∷ []) 81 weaponised []
    ∷ heartbleed
    ∷ entry (codes "CVE-2021-44228") (codes "Log4Shell") (codes "log4j")
        ((codes ">=", codes "2.0") ∷ (codes "<", codes "2.15.0") ∷ []) 100 weaponised []
    ∷ entry (codes "CVE-2022-22965") (codes "Spring4Shell") (codes "spring")
        ((codes "<", codes "5.3.18") ∷ []) 98 functional []
    ∷ []

-- What a constraint that holds says of the comparison.
at_least_of_Constrains :
    (v b : Text) → Constrains v (codes ">=", b) → compare_versions v b ≢ Ordering.lt
at_least_of_Constrains v b h =
    go (compare_versions v b) (version_satisfies_inv v (codes ">=") b true h)
  where
    go : (o : Ordering) → apply_op (codes ">=") (ops (codes ">=")) o ≡ answer true → o ≢ Ordering.lt
    go o e = unfold apply_op ops is_lt in ground arith

below_of_Constrains :
    (v b : Text) → Constrains v (codes "<", b) → compare_versions v b ≡ Ordering.lt
below_of_Constrains v b h = go (compare_versions v b) (version_satisfies_inv v (codes "<") b true h)
  where
    go : (o : Ordering) → apply_op (codes "<") (ops (codes "<")) o ≡ answer true → o ≡ Ordering.lt
    go o e = unfold apply_op ops is_lt in ground arith

bounds_reversed : compare_versions heartbleed_low heartbleed_high ≡ Ordering.gt
unfolding compare_versions
bounds_reversed = refl

no_heartbleed_version :
    (v : Text)
    → Constrains v (codes ">=", heartbleed_low)
    → Constrains v (codes "<", heartbleed_high)
    → ⊥
no_heartbleed_version v h k =
    let e : compare_versions heartbleed_low heartbleed_high ≡ Ordering.lt =
      no_version_between v heartbleed_low heartbleed_high
        (at_least_of_Constrains v heartbleed_low h) (below_of_Constrains v heartbleed_high k) in
    cc (e, bounds_reversed)

heartbleed-ProductApplies : (fp : Claim) → ProductApplies heartbleed fp → ⊥
heartbleed-ProductApplies fp a = go (is_empty (or_empty fp.version)) a.version
  where
    go : (b : Bool) → VersionFits b heartbleed (or_empty fp.version) → ⊥
    go true h = unfold heartbleed in cc
    go false h = unfold heartbleed in no_heartbleed_version (or_empty fp.version) h.0 h.1.0

-- No fingerprint is matched against the built-in Heartbleed entry: its two constraints leave no
-- version, since "1.0.1g" counts as a pre-release of "1.0.1".
pub heartbleed_unreachable : (fp : Claim) → (entry_matches heartbleed fp).matched ≡ false
heartbleed_unreachable fp = elim (Bool-cases (entry_matches heartbleed fp).matched) [
  | inl e ↦ absurd (go (observed_cpe fp) ((entry_matches_iff heartbleed fp).0 e))
  | inr e ↦ e
]
  where
    go : (o : Option Cpe) → EntryApplies heartbleed fp o → ⊥
    go none h = heartbleed-ProductApplies fp h
    go (some o) h = unfold heartbleed in heartbleed-ProductApplies fp h
