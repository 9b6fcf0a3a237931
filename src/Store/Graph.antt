-- ===== src/Store/Graph.antt =====
-- reconkg/store.py: the graph as a whole, and what a change of a host or a service in it keeps.
pub mod Parts
pub mod Kept
use reconkg.Base.{
  ℕ, Bool, true, false, Option, none, some, List, [], ◌∷◌, ◌++◌, if◌then◌else◌, is_empty, All, ◌≡◌,
  refl, ◌∙◌, subst, arith, Bool-cases, Option-cases, inl, inr,
}
use reconkg.Base.Text.{Text, text_eq_refl}
use reconkg.Base.Dict
use reconkg.Base.Dict.{get-put}
use reconkg.Base.Dict.Unique.{HasUniqueKeys, put-HasUniqueKeys}
use reconkg.Base.Dict.Every.{All-get, All-put}
use reconkg.Models.{Provenance, GraphNode, new_node, observe, decay}
use reconkg.Models.Graph.{
  Fingerprint, VulnLead, Service, Port, Protocol, Host, find_in, find_port, upsert_fingerprint,
  upsert_port,
}
use reconkg.Models.Graph.Distinct.{upsert_fingerprint-IsDistinct, upsert_port-IsDistinct}
use reconkg.Commands.Build.Clean.{IsClean}
use reconkg.Auth.Address.{validate_address, validate_address-IsClean}
use reconkg.Store.{
  Stamp, ChangeEvent, TargetStore, new_store, emit, with_host, WriteResult, done, raised, Place,
  require_service, service_of, with_service, with_port, new_hostnames,
}
use reconkg.Store.Operations.{
  lead_recorded, record_lead, has_lead, port_recorded, record_port, merged_service, service_on,
  service_in, set_service, fingerprint_recorded, record_fingerprint, lowered_to, adjusted,
  adjusted_at, adjust_fingerprint_confidence, find_fingerprint,
}
use reconkg.Store.Hosts.{
  new_host, host_made, host_seen_again, ensured, ensure_host, extended, key_of, add_hostnames,
}
use reconkg.Store.Announced.{
  Op, host_ensured, hostnames_given, port_given, service_given, fingerprint_given,
  confidence_lowered, lead_given, emitted, apply, apply_all,
}
use reconkg.Store.Unique.{
  IsService, IsServed, IsPort, IsHost, append-lead, replace_fingerprint-IsDistinct,
  replace_port-IsDistinct, replace_port-All, find_in-IsPort, upsert_port-All,
}

abbrev pub IsEntry : Text × Host → Type 0
IsEntry (address, host) = IsClean address × IsHost host

-- One host for each address, an address without control characters, and on each host the parts once.
pub record IsGraph (s : TargetStore) : Type 0 where
  pub one_host : HasUniqueKeys s.hosts
  pub its_entries : All IsEntry s.hosts

-- A port or a service that comes with contents comes with these once.
abbrev pub IsGiven : Op → Type 0
IsGiven (port_given stamp address port) = IsPort port
IsGiven (service_given stamp address number service protocol) = IsService service
IsGiven _ = Unit

pub written-IsGraph :
    (s : TargetStore) (address : Text) (host : Host)
    → IsGraph s
    → IsClean address
    → IsHost host
    → IsGraph (with_host address host s)
unfolding with_host
written-IsGraph s address host g c h = record {
  one_host = put-HasUniqueKeys s.hosts address host g.one_host;
  its_entries = All-put IsEntry s.hosts address host g.its_entries (c, h);
}

pub known :
    (s : TargetStore) (address : Text) (host : Host)
    → IsGraph s
    → Dict.get s.hosts address ≡ some host
    → IsEntry (address, host)
known s address host g e = All-get IsEntry s.hosts address host g.its_entries e

-- The host that is known under an address is written again.
pub rewritten-IsGraph :
    (s : TargetStore) (address : Text) (old host : Host)
    → IsGraph s
    → Dict.get s.hosts address ≡ some old
    → (IsHost old → IsHost host)
    → IsGraph (with_host address host s)
rewritten-IsGraph s address old host g e f =
    let (c, h) = known s address old g e in written-IsGraph s address host g c (f h)

-- What `_require_service` finds is in the graph.
pub record Stands (s : TargetStore) (address : Text) (place : Place) : Type 0 where
  pub its_host : Dict.get s.hosts address ≡ some place.host
  pub its_service : IsHost place.host → IsService place.service

service_of-Stands :
    (s : TargetStore) (address : Text) (number : ℕ) (protocol : Protocol) (host : Host)
    (o : Option Port) (place : Place)
    → Dict.get s.hosts address ≡ some host
    → find_in number protocol host.ports ≡ o
    → service_of host o ≡ some place
    → Stands s address place
unfolding service_of
service_of-Stands s address number protocol host none place d f e = cc
service_of-Stands s address number protocol host (some port) place d f e =
    elim (Option-cases port.service) [
      | inl n ↦ absurd (ground (arith, e, n))
      | inr (service, n) ↦
          let there : Place = record { host = host; port = port; service = service } in
          let same : there ≡ place = ground (arith, e, n) in
          subst (Stands s address) same (record {
            its_host = d;
            its_service =
                λ h. subst IsServed n (find_in-IsPort number protocol host.ports port h.1 f);
          })
    ]

pub require_service-Stands :
    (s : TargetStore) (address : Text) (number : ℕ) (protocol : Protocol) (place : Place)
    → require_service address number protocol s ≡ some place
    → Stands s address place
unfolding require_service find_port
require_service-Stands s address number protocol place e =
    elim (Option-cases (Dict.get s.hosts address)) [
      | inl n ↦ absurd (ground (arith, e, n))
      | inr (host, n) ↦
          service_of-Stands s address number protocol host (find_in number protocol host.ports)
            place n refl (ground (arith, e, n))
    ]

pub with_port-IsHost :
    (port : Port) (host : Host) → IsPort port → IsHost host → IsHost (with_port port host)
unfolding with_port
with_port-IsHost port host p (d, h) =
    (replace_port-IsDistinct port host.ports d, replace_port-All port host.ports p h)

-- Another service that has its parts once may be written to a place that stands.
pub served-IsGraph :
    (s : TargetStore) (address : Text) (place : Place) (service : Service)
    → IsGraph s
    → Stands s address place
    → (IsService place.service → IsService service)
    → IsGraph (with_host address (with_service place service) s)
unfolding with_service
served-IsGraph s address place service g t f =
    rewritten-IsGraph s address place.host (with_service place service) g t.its_host (λ h.
      with_port-IsHost (record place.port { service = some service }) place.host
        (f (t.its_service h)) h)

pub lead_recorded-IsGraph :
    (stamp : Stamp) (address : Text) (number : ℕ) (lead : VulnLead) (protocol : Protocol)
    (s : TargetStore) (o : Option Place)
    → IsGraph s
    → require_service address number protocol s ≡ o
    → IsGraph (lead_recorded stamp address number lead protocol s o).0
unfolding lead_recorded emit
lead_recorded-IsGraph stamp address number lead protocol s none g e = g
lead_recorded-IsGraph stamp address number lead protocol s (some place) g e =
    elim (Bool-cases (has_lead lead place.service.leads)) [
      | inl n ↦ rw n g
      | inr n ↦
          let w : IsGraph (
              with_host address
                (with_service place
                  (record place.service { leads = place.service.leads ++ lead ∷ [] }))
                s) =
            served-IsGraph s address place _ g
              (require_service-Stands s address number protocol place e)
              (λ (f, l). (f, append-lead lead place.service.leads n l)) in
          rw n (record { one_host = w.one_host; its_entries = w.its_entries })
    ]

-- An event says nothing of the graph.
pub emitted-IsGraph : (event : ChangeEvent) (s : TargetStore) → IsGraph s → IsGraph (emit event s)
unfolding emit
emitted-IsGraph event s g = record { one_host = g.one_host; its_entries = g.its_entries }
