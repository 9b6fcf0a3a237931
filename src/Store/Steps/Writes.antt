-- ===== src/Store/Steps/Writes.antt =====
-- reconkg/store.py: each write of `TargetStore` is a step.
use reconkg.Base.{ℕ, Option, none, some, List, is_empty, inl, inr, Bool-cases}
use reconkg.Base.Text.{Text}
use reconkg.Base.Dict
use reconkg.Base.Dict.{Dict}
use reconkg.Models.{Provenance, GraphNode, decay}
use reconkg.Models.Graph.{Fingerprint, VulnLead, Service, Port, Protocol, Host, find_port}
use reconkg.Auth.Address.{validate_address}
use reconkg.Store.{Stamp, TargetStore, with_host, WriteResult, done, raised, Place, new_hostnames}
use reconkg.Store.Operations.{
  lead_recorded, has_lead, port_recorded, service_on, service_in, fingerprint_recorded, lowered_to,
  adjusted, adjusted_at, find_fingerprint,
}
use reconkg.Store.Hosts.{new_host, host_made, host_seen_again, ensured, extended}
use reconkg.Store.Steps.{Steps, quiet, told, Steps-suc}

pub lead_recorded-Steps :
    (stamp : Stamp) (address : Text) (number : ℕ) (lead : VulnLead) (protocol : Protocol)
    (s : TargetStore) (o : Option Place)
    → Steps s 1 (lead_recorded stamp address number lead protocol s o).0
unfolding lead_recorded with_host
lead_recorded-Steps stamp address number lead protocol s none = quiet
lead_recorded-Steps stamp address number lead protocol s (some place) =
    elim (Bool-cases (has_lead lead place.service.leads)) [
      | inl e ↦ rw e quiet
      | inr e ↦ rw e (told _ _ quiet)
    ]

module _ (round4 : ℕ → ℕ) where
  pub port_recorded-Steps :
      (stamp : Stamp) (address : Text) (port : Port) (s : TargetStore) (o : Option Host)
      → Steps s 1 (port_recorded round4 stamp address port s o).0
  unfolding port_recorded with_host
  port_recorded-Steps stamp address port s none = quiet
  port_recorded-Steps stamp address port s (some host) = told _ _ quiet

  pub service_on-Steps :
      (stamp : Stamp) (address : Text) (number : ℕ) (service : Service) (protocol : Protocol)
      (s : TargetStore) (host : Host) (o : Option Port)
      → Steps s 1 (service_on round4 stamp address number service protocol s host o).0
  unfolding service_on with_host
  service_on-Steps stamp address number service protocol s host none = quiet
  service_on-Steps stamp address number service protocol s host (some port) = told _ _ quiet

  pub service_in-Steps :
      (stamp : Stamp) (address : Text) (number : ℕ) (service : Service) (protocol : Protocol)
      (s : TargetStore) (o : Option Host)
      → Steps s 1 (service_in round4 stamp address number service protocol s o).0
  unfolding service_in
  service_in-Steps stamp address number service protocol s none = quiet
  service_in-Steps stamp address number service protocol s (some host) =
      service_on-Steps stamp address number service protocol s host (find_port number protocol host)

  pub fingerprint_recorded-Steps :
      (stamp : Stamp) (address : Text) (number : ℕ) (f : Fingerprint) (protocol : Protocol)
      (s : TargetStore) (o : Option Place)
      → Steps s 1 (fingerprint_recorded round4 stamp address number f protocol s o).0
  unfolding fingerprint_recorded with_host
  fingerprint_recorded-Steps stamp address number f protocol s none = quiet
  fingerprint_recorded-Steps stamp address number f protocol s (some place) = told _ _ quiet

  pub lowered_to-Steps :
      (stamp : Stamp) (address : Text) (number : ℕ) (protocol : Protocol) (reason tool : Text)
      (s : TargetStore) (place : Place) (f : Fingerprint) (o : Option GraphNode)
      → Steps s 1 (lowered_to round4 stamp address number protocol reason tool s place f o).0
  unfolding lowered_to with_host
  lowered_to-Steps stamp address number protocol reason tool s place f none = quiet
  lowered_to-Steps stamp address number protocol reason tool s place f (some node) = told _ _ quiet

  pub adjusted-Steps :
      (stamp : Stamp) (address : Text) (number : ℕ) (protocol : Protocol) (factor : ℕ)
      (reason tool : Text) (s : TargetStore) (place : Place) (o : Option Fingerprint)
      → Steps s 1 (adjusted round4 stamp address number protocol factor reason tool s place o).0
  unfolding adjusted
  adjusted-Steps stamp address number protocol factor reason tool s place none = quiet
  adjusted-Steps stamp address number protocol factor reason tool s place (some f) =
      lowered_to-Steps stamp address number protocol reason tool s place f
        (decay round4 stamp.ts factor reason tool f.node)

  pub adjusted_at-Steps :
      (stamp : Stamp) (address : Text) (number : ℕ) (protocol : Protocol) (id : Text) (factor : ℕ)
      (reason tool : Text) (s : TargetStore) (o : Option Place)
      → Steps s 1 (adjusted_at round4 stamp address number protocol id factor reason tool s o).0
  unfolding adjusted_at
  adjusted_at-Steps stamp address number protocol id factor reason tool s none = quiet
  adjusted_at-Steps stamp address number protocol id factor reason tool s (some place) =
      adjusted-Steps stamp address number protocol factor reason tool s place
        (find_fingerprint id place.service.fingerprints)

  module _ (parse_ip : Text → Option Text) where
    pub host_made-Steps :
        (stamp : Stamp) (address : Text) (prov : Provenance) (s : TargetStore) (o : Option Host)
        → Steps s 1 (host_made round4 parse_ip stamp address prov s o).0
    unfolding host_made with_host
    host_made-Steps stamp address prov s none = quiet
    host_made-Steps stamp address prov s (some host) = told _ _ quiet

    pub host_seen_again-Steps :
        (stamp : Stamp) (address : Text) (prov : Provenance) (s : TargetStore) (o : Option Host)
        → Steps s 1 (host_seen_again round4 parse_ip stamp address prov s o).0
    unfolding host_seen_again with_host
    host_seen_again-Steps stamp address prov s none =
        host_made-Steps stamp address prov s
          (new_host round4 parse_ip prov (validate_address parse_ip address))
    host_seen_again-Steps stamp address prov s (some old) = told _ _ quiet

    pub ensured-Steps :
        (stamp : Stamp) (prov : Provenance) (s : TargetStore) (o : Option Text)
        → Steps s 1 (ensured round4 parse_ip stamp prov s o).0
    unfolding ensured
    ensured-Steps stamp prov s none = quiet
    ensured-Steps stamp prov s (some address) =
        host_seen_again-Steps stamp address prov s (Dict.get s.hosts address)

    pub extended-Steps :
        (stamp : Stamp) (given key : Text) (names : List Text) (s t : TargetStore)
        (o : WriteResult Host)
        → Steps s 1 t
        → Steps s 2 (extended round4 parse_ip stamp given key names (t, o)).0
    unfolding extended with_host
    extended-Steps stamp given key names s t (raised e) r = Steps-suc r
    extended-Steps stamp given key names s t (done host) r =
        elim (Bool-cases (is_empty (new_hostnames host.hostnames names))) [
          | inl e ↦ rw e (Steps-suc r)
          | inr e ↦ rw e (told _ _ r)
        ]
