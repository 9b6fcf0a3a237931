-- ===== src/Planner/Order.antt =====
-- reconkg/planner.py: the order of a plan.
use reconkg.Base.{ℕ, Bool, List, [], ◌∷◌, ◌++◌, ◌==◌, ◌≡◌, refl, ◌∙◌, ap, Bool-cases, inl, inr}
use reconkg.Base.Sort.{IsOrdered, at_weight, sort-IsOrdered, at_weight-sort}
use reconkg.Base.Text.{Text}
use reconkg.Models.Graph.{Host, iter_services}
use reconkg.Planner.{Recommendation, port_gaps, fingerprint_gaps, lead_actions, gaps, plan}

abbrev pub priority_of : Recommendation → ℕ
priority_of r = r.priority

at_weight-append :
    (p : ℕ) (rs ss : List Recommendation)
    → at_weight priority_of p (rs ++ ss) ≡ at_weight priority_of p rs ++ at_weight priority_of p ss
at_weight-append p [] ss = refl
at_weight-append p (r ∷ rs) ss = elim (Bool-cases (r.priority == p)) [
  | inl e ↦ rw (e, at_weight-append p rs ss) refl
  | inr e ↦ rw (e, at_weight-append p rs ss) refl
]

module _ (registered : Text → Bool) (floor : ℕ) where
  -- The plan of a host has the highest priorities first; and at each priority it has, each as often and in the
  -- order in which they are found, the gaps of the ports, then those of the fingerprints, then the leads.
  pub plan-IsOrdered :
      (host : Host)
      → IsOrdered priority_of (plan registered floor host)
        × ((p : ℕ)
            → at_weight priority_of p (plan registered floor host)
              ≡ at_weight priority_of p (port_gaps registered floor host.address host.ports)
                ++ (at_weight priority_of p
                      (fingerprint_gaps registered floor host.address (iter_services host.ports))
                    ++ at_weight priority_of p
                        (lead_actions registered floor host.address (iter_services host.ports))))
  unfolding plan gaps
  plan-IsOrdered host =
      let ports = port_gaps registered floor host.address host.ports in
      let claims = fingerprint_gaps registered floor host.address (iter_services host.ports) in
      let leads = lead_actions registered floor host.address (iter_services host.ports) in
      (
        sort-IsOrdered priority_of (ports ++ (claims ++ leads)),
        λ p.
            at_weight-sort priority_of p (ports ++ (claims ++ leads))
            ∙ (at_weight-append p ports (claims ++ leads)
                ∙ ap (λ rest. at_weight priority_of p ports ++ rest)
                    (at_weight-append p claims leads)),
      )
