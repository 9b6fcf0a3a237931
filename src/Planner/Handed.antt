-- ===== src/Planner/Handed.antt =====
-- reconkg/planner.py: the leads of a host in its plan.
use reconkg.Base.{
  ℕ, Bool, true, false, ◌&&◌, ◌||◌, List, [], ◌∷◌, ◌++◌, map, ◌==◌, ==_refl, any, All, ◌≡◌, refl,
  ◌∙◌, arith,
}
use reconkg.Base.Text.{Text, text_eq, text_eq_refl}
use reconkg.Models.Graph.{
  VulnLead, Service, Port, Host, same_protocol, tcp, udp, Protocol, iter_services,
}
use reconkg.Planner.{
  Action, handoff, Recommendation, cve_of, lead_action, lead_actions, port_gaps, fingerprint_gaps,
  gaps, plan,
}
use reconkg.Base.Sort.{any-sort}
use reconkg.Planner.Order.{priority_of}

abbrev pub is_handoff : Action → Bool
is_handoff handoff = true
is_handoff _ = false

-- A recommendation hands a lead of a port to the operator.
abbrev pub hands : Port → VulnLead → Recommendation → Bool
hands port lead r =
    is_handoff r.action
    && r.port == port.number
    && same_protocol r.protocol port.protocol
    && text_eq (cve_of r.detail) lead.cve_id

any-append :
    (f : Recommendation → Bool) (rs ss : List Recommendation)
    → any f (rs ++ ss) ≡ (any f rs || any f ss)
any-append f [] ss = refl
any-append f (r ∷ rs) ss = rw (any-append f rs ss) (ground arith)

same_protocol_refl : (p : Protocol) → same_protocol p p ≡ true
unfolding same_protocol
same_protocol_refl tcp = refl
same_protocol_refl udp = refl

module _ (registered : Text → Bool) (floor : ℕ) where
  hands-lead_action :
      (address : Text) (port : Port) (lead : VulnLead)
      → hands port lead (lead_action registered floor address port lead) ≡ true
  unfolding lead_action cve_of
  hands-lead_action address port lead =
      rw (==_refl port.number, same_protocol_refl port.protocol, text_eq_refl lead.cve_id) refl

  -- A list in which what is found in another is found.
  abbrev Covers : (rs ss : List Recommendation) → Type 0
  Covers rs ss = (f : Recommendation → Bool) → any f rs ≡ true → any f ss ≡ true

  service-hands :
      (address : Text) (port : Port) (leads : List VulnLead) (ss : List Recommendation)
      → Covers (map (lead_action registered floor address port) leads) ss
      → All (λ lead. any (hands port lead) ss ≡ true) leads
  service-hands address port [] ss c = tt
  service-hands address port (lead ∷ leads) ss c = (
    c (hands port lead) (rw (hands-lead_action address port lead) refl),
    service-hands address port leads ss (λ f h. c f (ground (arith, h))),
  )

  places-hand :
      (address : Text) (places : List (Port × Service)) (ss : List Recommendation)
      → Covers (lead_actions registered floor address places) ss
      → All (λ (port, service). All (λ lead. any (hands port lead) ss ≡ true) service.leads) places
  unfolding lead_actions
  places-hand address [] ss c = tt
  places-hand address ((port, service) ∷ rest) ss c = (
    service-hands address port service.leads ss (λ f h. c f (
        any-append f (map (lead_action registered floor address port) service.leads) _
        ∙ rw h refl)),
    places-hand address rest ss (λ f h. c f (
        any-append f (map (lead_action registered floor address port) service.leads) _
        ∙ rw h (ground arith))),
  )

  -- Each lead of each service of a host is in the plan of the host, as a step of the operator at the port of
  -- the service.
  pub plan-hands :
      (host : Host)
      → All
          (λ (port, service).
            All (λ lead. any (hands port lead) (plan registered floor host) ≡ true) service.leads)
          (iter_services host.ports)
  unfolding plan gaps
  plan-hands host =
      let places = iter_services host.ports in
      let ports = port_gaps registered floor host.address host.ports in
      let claims = fingerprint_gaps registered floor host.address places in
      let leads = lead_actions registered floor host.address places in
      places-hand host.address places (plan registered floor host) (λ f h.
        any-sort priority_of f (ports ++ (claims ++ leads))
        ∙ (any-append f ports (claims ++ leads) ∙ rw (any-append f claims leads, h) (ground arith)))
