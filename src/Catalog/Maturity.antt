-- ===== src/Catalog/Maturity.antt =====
-- reconkg/catalog.py: what the records of a vulnerability say of its maturity.
use reconkg.Base.{
  ◌≤◌, Bool, true, false, List, [], ◌∷◌, is_empty, any, ◌≡◌, refl, ◌⊎◌, arith, Bool-cases, inl, inr,
}
use reconkg.Base.Text.{Text, codes}
use reconkg.Vulnref.{
  ExploitMaturity, not_defined, theoretical, proof_of_concept, functional, weaponised,
}
use reconkg.Catalog.{
  ExploitRecord, ExploitCatalog, records_for, is_from, maturity_weight, inferred, stronger,
  infer_maturity,
}

any-none :
    (f : ExploitRecord → Bool) (rs : List ExploitRecord) → any f rs ≡ true → is_empty rs ≡ false
any-none f [] h = cc
any-none f (r ∷ rs) h = refl

weight_bound : (m : ExploitMaturity) → maturity_weight m ≤ 10
unfolding maturity_weight
weight_bound not_defined = omega arith
weight_bound theoretical = omega arith
weight_bound proof_of_concept = omega arith
weight_bound functional = omega arith
weight_bound weaponised = omega arith

stronger_bound :
    (found declared : ExploitMaturity)
    → maturity_weight declared ≤ maturity_weight (stronger found declared)
unfolding stronger
stronger_bound found declared = ground arith

stronger-weaponised :
    (declared : ExploitMaturity) → maturity_weight (stronger weaponised declared) ≡ 10
unfolding stronger maturity_weight
stronger-weaponised declared =
    let most : maturity_weight declared ≤ 10 = weight_bound declared in ground (arith, most)

-- The maturity of an entry is never lowered by the catalogue, and it is as high as it can be where a module
-- of Metasploit is indexed for the vulnerability.
pub infer_maturity_bound :
    (catalog : ExploitCatalog) (cve : Text) (declared : ExploitMaturity)
    → (maturity_weight declared ≤ maturity_weight (infer_maturity catalog cve declared))
      × ((any (is_from (codes "metasploit")) (records_for catalog cve) ≡ false)
          ⊎ (maturity_weight (infer_maturity catalog cve declared) ≡ 10))
unfolding infer_maturity inferred
infer_maturity_bound catalog cve declared = elim (Bool-cases (is_empty (records_for catalog cve))) [
  | inl e ↦ rw e (
    omega arith,
    elim (Bool-cases (any (is_from (codes "metasploit")) (records_for catalog cve))) [
      | inl m ↦
          absurd
            (ground (arith, e, any-none (is_from (codes "metasploit")) (records_for catalog cve) m))
      | inr m ↦ inl m
    ],
  )
  | inr e ↦ rw e (
    stronger_bound (inferred (records_for catalog cve)) declared,
    elim (Bool-cases (any (is_from (codes "metasploit")) (records_for catalog cve))) [
      | inl m ↦ inr (rw m (stronger-weaponised declared))
      | inr m ↦ inl m
    ],
  )
]
