-- ===== src/Planner/Assigned.antt =====
-- reconkg/planner.py: which recommendations carry a module.
use reconkg.Base.{
  ℕ, Bool, true, false, ◌&&◌, ◌||◌, not, Option, none, some, List, [], ◌∷◌, map, if◌then◌else◌,
  is_empty, length, ltb, All, All-append, ◌≡◌, refl, Bool-cases, inl, inr,
}
use reconkg.Base.Text.{Text, codes, starts_with}
use reconkg.Models.Graph.{
  Fingerprint, VulnLead, Service, Port, PortState, open_port, closed, filtered, unknown, Host,
  contradictions, iter_services,
}
use reconkg.Vulnref.{or_empty}
use reconkg.Planner.{
  Gap, no_service, no_fingerprint, ambiguous_version, below_floor, uncorroborated,
  no_web_fingerprint, filtered_port, contradiction, lead_ready, Action, submit_independent_evidence,
  handoff, Detail, of_lead, of_submitters, Recommendation, module_for_gap, is_web, has_whatweb,
  without_system, principals, assign_name, assign, open_gap, port_gap, port_gaps, web_gap,
  conflict_gaps, fingerprint_gap, each_fingerprint, fingerprint_gaps, lead_action, lead_actions,
  gaps, plan,
}
use reconkg.Base.Sort.{All-sort}
use reconkg.Planner.Order.{priority_of}

module _ (registered : Text → Bool) (floor : ℕ) where
  -- A module of a recommendation is a registered one for reconnaissance.
  abbrev pub IsRecon : Option Text → Type 0
  IsRecon none = Unit
  IsRecon (some name) = (registered name ≡ true) × (starts_with (codes "recon/") name ≡ true)

  -- A step that names a lead is a hand-off without a module, and one that asks for other evidence has none.
  abbrev pub IsForDetail : Detail → Recommendation → Type 0
  IsForDetail (of_lead lead) r =
      (r.gap ≡ lead_ready) × (r.action ≡ handoff) × (r.module_name ≡ none)
  IsForDetail (of_submitters claim principals) r =
      (r.action ≡ submit_independent_evidence) × (r.module_name ≡ none)
  IsForDetail _ r = Unit

  -- The gap of a lead, and a step for the operator, have no module either.
  abbrev pub IsForGap : Gap → Recommendation → Type 0
  IsForGap lead_ready r = (r.action ≡ handoff) × (r.module_name ≡ none)
  IsForGap uncorroborated r = (r.action ≡ submit_independent_evidence) × (r.module_name ≡ none)
  IsForGap _ r = Unit

  abbrev pub IsForAction : Action → Recommendation → Type 0
  IsForAction handoff r = r.module_name ≡ none
  IsForAction submit_independent_evidence r = r.module_name ≡ none
  IsForAction _ r = Unit

  abbrev pub IsSafeStep : Recommendation → Type 0
  IsSafeStep r =
      IsRecon r.module_name × IsForDetail r.detail r × IsForGap r.gap r × IsForAction r.action r

  -- A step that only runs a module.
  plain :
      (gap : Gap)
      → IsRecon (assign registered floor gap)
      → IsRecon (assign registered floor gap) × Unit {0} × Unit {0} × Unit {0}
  plain gap h = (h, tt, tt, tt)

  named-IsRecon :
      (name : Text)
      → starts_with (codes "recon/") name ≡ true
      → IsRecon (assign_name registered floor (some name))
  unfolding assign_name
  named-IsRecon name h = elim (Bool-cases (registered name)) [
    | inl e ↦ rw e (e, h)
    | inr e ↦ rw e tt
  ]

  assign-IsRecon : (gap : Gap) → IsRecon (assign registered floor gap)
  unfolding assign module_for_gap assign_name starts_with
  assign-IsRecon no_service = named-IsRecon (codes "recon/fingerprint/banner_probe") refl
  assign-IsRecon no_fingerprint = named-IsRecon (codes "recon/fingerprint/banner_probe") refl
  assign-IsRecon ambiguous_version = named-IsRecon (codes "recon/fingerprint/deep_probe") refl
  assign-IsRecon below_floor = named-IsRecon (codes "recon/fingerprint/deep_probe") refl
  assign-IsRecon no_web_fingerprint = named-IsRecon (codes "recon/http/app_fingerprint") refl
  assign-IsRecon filtered_port = named-IsRecon (codes "recon/discovery/connect_sweep") refl
  assign-IsRecon uncorroborated = tt
  assign-IsRecon contradiction = tt
  assign-IsRecon lead_ready = tt

  -- One recommendation under a test.
  one_if :
      (b : Bool) (r : Recommendation) → IsSafeStep r → All IsSafeStep (if b then r ∷ [] else [])
  one_if true r h = (h, tt)
  one_if false r h = tt

  open_gap-safe :
      (address : Text) (port : Port) (o : Option Service)
      → All IsSafeStep (open_gap registered floor address port o)
  unfolding open_gap
  open_gap-safe address port none = (plain no_service (assign-IsRecon no_service), tt)
  open_gap-safe address port (some service) =
      one_if (is_empty service.fingerprints) _
        (plain no_fingerprint (assign-IsRecon no_fingerprint))

  port_gap-safe :
      (address : Text) (port : Port) (s : PortState)
      → All IsSafeStep (port_gap registered floor address port s)
  unfolding port_gap
  port_gap-safe address port filtered = (plain filtered_port (assign-IsRecon filtered_port), tt)
  port_gap-safe address port open_port = open_gap-safe address port port.service
  port_gap-safe address port closed = tt
  port_gap-safe address port unknown = tt

  port_gaps-safe :
      (address : Text) (ps : List Port) → All IsSafeStep (port_gaps registered floor address ps)
  unfolding port_gaps
  port_gaps-safe address [] = tt
  port_gaps-safe address (p ∷ ps) =
      All-append IsSafeStep (port_gap registered floor address p p.state) _
        (port_gap-safe address p p.state) (port_gaps-safe address ps)

  conflict_gaps-safe :
      (address : Text) (port : Port) (conflicts : List (Fingerprint × Fingerprint))
      → All IsSafeStep (conflict_gaps registered floor address port conflicts)
  unfolding conflict_gaps
  conflict_gaps-safe address port [] = tt
  conflict_gaps-safe address port ((a, b) ∷ conflicts) = (
    plain ambiguous_version (assign-IsRecon ambiguous_version),
    conflict_gaps-safe address port conflicts,
  )

  fingerprint_gap-safe :
      (address : Text) (port : Port) (f : Fingerprint)
      → All IsSafeStep (fingerprint_gap registered floor address port f)
  unfolding fingerprint_gap
  fingerprint_gap-safe address port f =
      elim (Bool-cases (f.ambiguous || is_empty (or_empty f.version))) [
        | inl e ↦ rw e (plain ambiguous_version (assign-IsRecon ambiguous_version), tt)
        | inr e ↦ elim (Bool-cases (ltb f.node.provenance.confidence floor)) [
          | inl l ↦ rw (e, l) (plain below_floor (assign-IsRecon below_floor), tt)
          | inr l ↦
              rw (e, l)
                (one_if (ltb (length (without_system (principals f.node))) 2) _
                  (tt, (refl, refl), (refl, refl), refl))
        ]
      ]

  each_fingerprint-safe :
      (address : Text) (port : Port) (fs : List Fingerprint)
      → All IsSafeStep (each_fingerprint registered floor address port fs)
  unfolding each_fingerprint
  each_fingerprint-safe address port [] = tt
  each_fingerprint-safe address port (f ∷ fs) =
      All-append IsSafeStep (fingerprint_gap registered floor address port f) _
        (fingerprint_gap-safe address port f) (each_fingerprint-safe address port fs)

  fingerprint_gaps-safe :
      (address : Text) (places : List (Port × Service))
      → All IsSafeStep (fingerprint_gaps registered floor address places)
  unfolding fingerprint_gaps web_gap
  fingerprint_gaps-safe address [] = tt
  fingerprint_gaps-safe address ((port, service) ∷ rest) =
      All-append IsSafeStep (web_gap registered floor address port service) _
        (one_if
          (is_web service.name
            && not (has_whatweb service.fingerprints)
            && not (is_empty service.fingerprints))
          _ (plain no_web_fingerprint (assign-IsRecon no_web_fingerprint)))
        (All-append IsSafeStep
          (conflict_gaps registered floor address port (contradictions floor service)) _
          (conflict_gaps-safe address port (contradictions floor service))
          (All-append IsSafeStep
            (each_fingerprint registered floor address port service.fingerprints) _
            (each_fingerprint-safe address port service.fingerprints)
            (fingerprint_gaps-safe address rest)))

  leads-safe :
      (address : Text) (port : Port) (ls : List VulnLead)
      → All IsSafeStep (map (lead_action registered floor address port) ls)
  unfolding lead_action
  leads-safe address port [] = tt
  leads-safe address port (l ∷ ls) =
      ((tt, (refl, refl, refl), (refl, refl), refl), leads-safe address port ls)

  lead_actions-safe :
      (address : Text) (places : List (Port × Service))
      → All IsSafeStep (lead_actions registered floor address places)
  unfolding lead_actions
  lead_actions-safe address [] = tt
  lead_actions-safe address ((port, service) ∷ rest) =
      All-append IsSafeStep (map (lead_action registered floor address port) service.leads) _
        (leads-safe address port service.leads) (lead_actions-safe address rest)

  -- Every module that a plan assigns is registered and is one of `recon/`; a step that names a lead, and one
  -- of which the gap is a lead, is a hand-off and has no module, and neither has a request for other evidence.
  pub plan-IsSafe : (host : Host) → All IsSafeStep (plan registered floor host)
  unfolding plan gaps
  plan-IsSafe host = All-sort priority_of IsSafeStep (gaps registered floor host) (
      All-append IsSafeStep (port_gaps registered floor host.address host.ports) _
        (port_gaps-safe host.address host.ports)
        (All-append IsSafeStep
          (fingerprint_gaps registered floor host.address (iter_services host.ports)) _
          (fingerprint_gaps-safe host.address (iter_services host.ports))
          (lead_actions-safe host.address (iter_services host.ports))))
