-- ===== src/Store/Operations.antt =====
-- reconkg/store.py: the writes of `TargetStore` to ports and services. Each gives the store that it leaves and its outcome.
use reconkg.Base.{ℕ, Bool, ◌&&◌, Option, none, some, List, [], ◌∷◌, ◌++◌, if◌then◌else◌, any}
use reconkg.Base.Text.{Text, text_eq}
use reconkg.Base.Dict
use reconkg.Base.Dict.{Dict}
use reconkg.Models.{GraphNode, observe, decay}
use reconkg.Models.Graph.{
  Fingerprint, VulnLead, Service, Port, Protocol, Host, key, find_port, upsert_fingerprint,
  upsert_port,
}
use reconkg.Store.{
  EventKind, port_added, port_updated, service_set, fingerprint_added, fingerprint_confidence,
  lead_added, Payload, port_seen, service_seen, fingerprint_seen, lowered, lead_seen, Stamp,
  TargetStore, key_error, value_error, WriteResult, done, raised, emit, with_host, port_path,
  service_path, tools, with_port, Place, require_service, with_service,
}

abbrev pub announce : Stamp → EventKind → (target path : Text) → Payload → TargetStore → TargetStore
announce stamp kind target path payload store =
    emit (record { stamp = stamp; kind = kind; target = target; path = path; payload = payload })
      store

unfoldable pub has_lead : VulnLead → List VulnLead → Bool
has_lead lead = any (λ l.
    text_eq l.cve_id lead.cve_id && text_eq l.matched_fingerprint_id lead.matched_fingerprint_id)

unfoldable pub find_fingerprint : (id : Text) → List Fingerprint → Option Fingerprint
find_fingerprint id [] = none
find_fingerprint id (f ∷ fs) = if text_eq f.id id then some f else find_fingerprint id fs

-- The first fingerprint with an identifier, replaced where it stands.
unfoldable pub replace_fingerprint : Fingerprint → List Fingerprint → List Fingerprint
replace_fingerprint new [] = []
replace_fingerprint new (f ∷ fs) =
    let rest = replace_fingerprint new fs in if text_eq f.id new.id then new ∷ fs else f ∷ rest

unfoldable pub lead_recorded :
    Stamp
    → (address : Text) → ℕ
    → VulnLead
    → Protocol
    → TargetStore
    → Option Place
    → TargetStore × WriteResult VulnLead
lead_recorded stamp address number lead protocol store none = (store, raised key_error)
lead_recorded stamp address number lead protocol store (some place) =
    if has_lead lead place.service.leads then (store, done lead) else (
      announce stamp lead_added address
          (service_path address protocol number (place.service.name ++ b'/' ∷ lead.cve_id))
          (lead_seen lead.cve_id lead.cvss lead.priority lead.exploit_maturity lead.rationale)
          (with_host address
            (with_service place (record place.service { leads = place.service.leads ++ lead ∷ [] }))
            store),
      done lead,
    )

unfoldable pub record_lead :
    Stamp
    → (address : Text) → ℕ
    → VulnLead
    → Protocol
    → TargetStore
    → TargetStore × WriteResult VulnLead
record_lead stamp address number lead protocol store =
    lead_recorded stamp address number lead protocol store
      (require_service address number protocol store)

module _ (round4 : ℕ → ℕ) where
  unfoldable pub port_recorded :
      Stamp → (address : Text) → Port → TargetStore → Option Host → TargetStore × WriteResult Port
  port_recorded stamp address port store none = (store, raised key_error)
  port_recorded stamp address port store (some host) =
      let (ports, stored) = upsert_port round4 port host.ports in
      (
        announce stamp
            (elim (find_port port.number port.protocol host) [
              | none ↦ port_added
              | some p ↦ port_updated
            ])
            address (port_path address stored.protocol stored.number)
            (port_seen stored.number stored.protocol stored.state stored.node.provenance.confidence
              stored.node.provenance.source_tool)
            (with_host address (record host { ports = ports }) store),
        done stored,
      )

  unfoldable pub record_port :
      Stamp → (address : Text) → Port → TargetStore → TargetStore × WriteResult Port
  record_port stamp address port store =
      port_recorded stamp address port store (Dict.get store.hosts address)

  -- `port.service`, set or observed.
  unfoldable pub merged_service : Service → Option Service → Service
  merged_service new none = new
  merged_service new (some old) = record old { node = observe round4 new.node.provenance old.node }

  unfoldable pub service_on :
      Stamp
      → (address : Text) → ℕ
      → Service
      → Protocol
      → TargetStore
      → Host
      → Option Port
      → TargetStore × WriteResult Service
  service_on stamp address number service protocol store host none = (store, raised key_error)
  service_on stamp address number service protocol store host (some port) =
      let stored = merged_service service port.service in
      (
        announce stamp service_set address (service_path address protocol number stored.name)
            (service_seen stored.name stored.node.provenance.confidence
              stored.node.provenance.source_tool)
            (with_host address (with_port (record port { service = some stored }) host) store),
        done stored,
      )

  unfoldable pub service_in :
      Stamp
      → (address : Text) → ℕ
      → Service
      → Protocol
      → TargetStore
      → Option Host
      → TargetStore × WriteResult Service
  service_in stamp address number service protocol store none = (store, raised key_error)
  service_in stamp address number service protocol store (some host) =
      service_on stamp address number service protocol store host (find_port number protocol host)

  unfoldable pub set_service :
      Stamp
      → (address : Text) → ℕ
      → Service
      → Protocol
      → TargetStore
      → TargetStore × WriteResult Service
  set_service stamp address number service protocol store =
      service_in stamp address number service protocol store (Dict.get store.hosts address)

  unfoldable pub fingerprint_recorded :
      Stamp
      → (address : Text) → ℕ
      → Fingerprint
      → Protocol
      → TargetStore
      → Option Place
      → TargetStore × WriteResult Fingerprint
  fingerprint_recorded stamp address number fingerprint protocol store none =
      (store, raised key_error)
  fingerprint_recorded stamp address number fingerprint protocol store (some place) =
      let (fingerprints, stored) =
        upsert_fingerprint round4 fingerprint place.service.fingerprints in
      (
        announce stamp
            (if any (λ f. text_eq (key f) (key stored)) place.service.fingerprints
              then fingerprint_confidence
              else fingerprint_added)
            address (service_path address protocol number (place.service.name ++ b'/' ∷ key stored))
            (fingerprint_seen stored.product stored.version stored.ambiguous
              stored.node.provenance.confidence (tools stored.node)
              stored.node.provenance.source_tool)
            (with_host address
              (with_service place (record place.service { fingerprints = fingerprints })) store),
        done stored,
      )

  unfoldable pub record_fingerprint :
      Stamp
      → (address : Text) → ℕ
      → Fingerprint
      → Protocol
      → TargetStore
      → TargetStore × WriteResult Fingerprint
  record_fingerprint stamp address number fingerprint protocol store =
      fingerprint_recorded stamp address number fingerprint protocol store
        (require_service address number protocol store)

  -- `fp.decay`, which may raise, and what follows it.
  unfoldable pub lowered_to :
      Stamp
      → (address : Text) → ℕ
      → Protocol
      → (reason source_tool : Text) → TargetStore
      → Place
      → Fingerprint
      → Option GraphNode
      → TargetStore × WriteResult (Option ℕ)
  lowered_to stamp address number protocol reason source_tool store place fp none =
      (store, raised value_error)
  lowered_to stamp address number protocol reason source_tool store place fp (some node) = (
    announce stamp fingerprint_confidence address
        (service_path address protocol number (place.service.name ++ b'/' ∷ key fp))
        (lowered node.provenance.confidence reason source_tool)
        (with_host address
          (with_service place (record place.service {
            fingerprints =
                replace_fingerprint (record fp { node = node }) place.service.fingerprints;
          }))
          store),
    done (some node.provenance.confidence),
  )

  unfoldable pub adjusted :
      Stamp
      → (address : Text) → ℕ
      → Protocol
      → (factor : ℕ) (reason source_tool : Text) → TargetStore
      → Place
      → Option Fingerprint
      → TargetStore × WriteResult (Option ℕ)
  adjusted stamp address number protocol factor reason source_tool store place none =
      (store, done none)
  adjusted stamp address number protocol factor reason source_tool store place (some fp) =
      lowered_to stamp address number protocol reason source_tool store place fp
        (decay round4 stamp.ts factor reason source_tool fp.node)

  unfoldable pub adjusted_at :
      Stamp
      → (address : Text) → ℕ
      → Protocol
      → (id : Text) (factor : ℕ) (reason source_tool : Text) → TargetStore
      → Option Place
      → TargetStore × WriteResult (Option ℕ)
  adjusted_at stamp address number protocol id factor reason source_tool store none =
      (store, raised key_error)
  adjusted_at stamp address number protocol id factor reason source_tool store (some place) =
      adjusted stamp address number protocol factor reason source_tool store place
        (find_fingerprint id place.service.fingerprints)

  unfoldable pub adjust_fingerprint_confidence :
      Stamp
      → (address : Text) → ℕ
      → (id : Text) (factor : ℕ) (reason source_tool : Text) → Protocol
      → TargetStore
      → TargetStore × WriteResult (Option ℕ)
  adjust_fingerprint_confidence stamp address number id factor reason source_tool protocol store =
      adjusted_at stamp address number protocol id factor reason source_tool store
        (require_service address number protocol store)
