-- ===== src/Store/Graph/Parts.antt =====
-- reconkg/store.py: the writes to ports and services, and what each keeps of the graph.
use reconkg.Base.{ℕ, Option, none, some, ◌≡◌, refl}
use reconkg.Base.Text.{Text}
use reconkg.Base.Dict
use reconkg.Base.Dict.{get-put}
use reconkg.Models.{GraphNode, decay}
use reconkg.Models.Graph.{Fingerprint, Service, Port, Protocol, Host, find_in, find_port}
use reconkg.Models.Graph.Distinct.{upsert_fingerprint-IsDistinct, upsert_port-IsDistinct}
use reconkg.Store.{Stamp, TargetStore, Place, require_service}
use reconkg.Store.Operations.{
  port_recorded, merged_service, service_on, service_in, fingerprint_recorded, lowered_to, adjusted,
  adjusted_at, find_fingerprint,
}
use reconkg.Store.Unique.{
  IsService, IsServed, IsPort, replace_fingerprint-IsDistinct, find_in-IsPort, upsert_port-All,
}
use reconkg.Store.Graph.{
  IsGraph, Stands, rewritten-IsGraph, require_service-Stands, with_port-IsHost, served-IsGraph,
  emitted-IsGraph,
}

module _ (round4 : ℕ → ℕ) where
  pub port_recorded-IsGraph :
      (stamp : Stamp) (address : Text) (port : Port) (s : TargetStore) (o : Option Host)
      → IsGraph s
      → IsPort port
      → Dict.get s.hosts address ≡ o
      → IsGraph (port_recorded round4 stamp address port s o).0
  unfolding port_recorded
  port_recorded-IsGraph stamp address port s none g p e = g
  port_recorded-IsGraph stamp address port s (some host) g p e = emitted-IsGraph _ _ (
      rewritten-IsGraph s address host _ g e (λ (d, h). (
        upsert_port-IsDistinct round4 port host.ports d,
        upsert_port-All round4 port host.ports p h,
      )))

  pub merged_service-IsService :
      (new : Service) (o : Option Service)
      → IsService new
      → IsServed o
      → IsService (merged_service round4 new o)
  unfolding merged_service
  merged_service-IsService new none n h = n
  merged_service-IsService new (some old) n h = h

  pub service_on-IsGraph :
      (stamp : Stamp) (address : Text) (number : ℕ) (service : Service) (protocol : Protocol)
      (s : TargetStore) (host : Host) (o : Option Port)
      → IsGraph s
      → IsService service
      → Dict.get s.hosts address ≡ some host
      → find_in number protocol host.ports ≡ o
      → IsGraph (service_on round4 stamp address number service protocol s host o).0
  unfolding service_on
  service_on-IsGraph stamp address number service protocol s host none g n d e = g
  service_on-IsGraph stamp address number service protocol s host (some port) g n d e =
      emitted-IsGraph _ _ (
        rewritten-IsGraph s address host _ g d (λ h.
          with_port-IsHost
            (record port { service = some (merged_service round4 service port.service) }) host
            (merged_service-IsService service port.service n
              (find_in-IsPort number protocol host.ports port h.1 e))
            h))

  pub service_in-IsGraph :
      (stamp : Stamp) (address : Text) (number : ℕ) (service : Service) (protocol : Protocol)
      (s : TargetStore) (o : Option Host)
      → IsGraph s
      → IsService service
      → Dict.get s.hosts address ≡ o
      → IsGraph (service_in round4 stamp address number service protocol s o).0
  unfolding service_in find_port
  service_in-IsGraph stamp address number service protocol s none g n d = g
  service_in-IsGraph stamp address number service protocol s (some host) g n d =
      service_on-IsGraph stamp address number service protocol s host
        (find_in number protocol host.ports) g n d refl

  pub fingerprint_recorded-IsGraph :
      (stamp : Stamp) (address : Text) (number : ℕ) (f : Fingerprint) (protocol : Protocol)
      (s : TargetStore) (o : Option Place)
      → IsGraph s
      → require_service address number protocol s ≡ o
      → IsGraph (fingerprint_recorded round4 stamp address number f protocol s o).0
  unfolding fingerprint_recorded
  fingerprint_recorded-IsGraph stamp address number f protocol s none g e = g
  fingerprint_recorded-IsGraph stamp address number f protocol s (some place) g e =
      emitted-IsGraph _ _ (
        served-IsGraph s address place _ g
          (require_service-Stands s address number protocol place e)
          (λ (d, l). (upsert_fingerprint-IsDistinct round4 f place.service.fingerprints d, l)))

  pub lowered_to-IsGraph :
      (stamp : Stamp) (address : Text) (number : ℕ) (protocol : Protocol) (id reason tool : Text)
      (s : TargetStore) (place : Place) (f : Fingerprint) (o : Option GraphNode)
      → IsGraph s
      → Stands s address place
      → find_fingerprint id place.service.fingerprints ≡ some f
      → IsGraph (lowered_to round4 stamp address number protocol reason tool s place f o).0
  unfolding lowered_to
  lowered_to-IsGraph stamp address number protocol id reason tool s place f none g t e = g
  lowered_to-IsGraph stamp address number protocol id reason tool s place f (some node) g t e =
      emitted-IsGraph _ _ (
        served-IsGraph s address place _ g t
          (λ (d, l). (replace_fingerprint-IsDistinct f node id place.service.fingerprints e d, l)))

  pub adjusted-IsGraph :
      (stamp : Stamp) (address : Text) (number : ℕ) (protocol : Protocol) (id : Text) (factor : ℕ)
      (reason tool : Text) (s : TargetStore) (place : Place) (o : Option Fingerprint)
      → IsGraph s
      → Stands s address place
      → find_fingerprint id place.service.fingerprints ≡ o
      → IsGraph (adjusted round4 stamp address number protocol factor reason tool s place o).0
  unfolding adjusted
  adjusted-IsGraph stamp address number protocol id factor reason tool s place none g t e = g
  adjusted-IsGraph stamp address number protocol id factor reason tool s place (some f) g t e =
      lowered_to-IsGraph stamp address number protocol id reason tool s place f
        (decay round4 stamp.ts factor reason tool f.node) g t e

  pub adjusted_at-IsGraph :
      (stamp : Stamp) (address : Text) (number : ℕ) (protocol : Protocol) (id : Text) (factor : ℕ)
      (reason tool : Text) (s : TargetStore) (o : Option Place)
      → IsGraph s
      → require_service address number protocol s ≡ o
      → IsGraph (adjusted_at round4 stamp address number protocol id factor reason tool s o).0
  unfolding adjusted_at
  adjusted_at-IsGraph stamp address number protocol id factor reason tool s none g e = g
  adjusted_at-IsGraph stamp address number protocol id factor reason tool s (some place) g e =
      adjusted-IsGraph stamp address number protocol id factor reason tool s place
        (find_fingerprint id place.service.fingerprints) g
        (require_service-Stands s address number protocol place e) refl
