-- ===== src/Store/Announced.antt =====
-- reconkg/store.py: the writes of `TargetStore` as operations, and runs of them. `emitted` is a call of
-- `emit` by itself, as the engine makes.
use reconkg.Base.{
  ℕ, ◌<◌, Option, List, [], ◌∷◌, ◌++◌, length, append-nil, append_assoc, length-append, inl, inr,
  arith, ◌≡◌, refl, ◌⊎◌,
}
use reconkg.Base.Text.{Text}
use reconkg.Base.Dict
use reconkg.Base.Dict.{Dict}
use reconkg.Models.{Provenance}
use reconkg.Models.Graph.{Fingerprint, VulnLead, Service, Port, Protocol}
use reconkg.Auth.Address.{validate_address}
use reconkg.Store.{Stamp, ChangeEvent, TargetStore, new_store, emit, require_service}
use reconkg.Store.Operations.{
  record_lead, record_port, set_service, record_fingerprint, adjust_fingerprint_confidence,
}
use reconkg.Store.Hosts.{ensured, ensure_host, key_of, add_hostnames}
use reconkg.Store.Steps.{
  Steps, quiet, told, Steps-suc, Shows, events_since, Steps-counts, Steps-told,
}
use reconkg.Store.Steps.Writes.{
  lead_recorded-Steps, port_recorded-Steps, service_in-Steps, fingerprint_recorded-Steps,
  adjusted_at-Steps, ensured-Steps, extended-Steps,
}

pub data Op : Type 0 where
  host_ensured : Stamp → (address : Text) → Provenance → Op
  hostnames_given : (first second : Stamp) (address : Text) → List Text → Provenance → Op
  port_given : Stamp → (address : Text) → Port → Op
  service_given : Stamp → (address : Text) → ℕ → Service → Protocol → Op
  fingerprint_given : Stamp → (address : Text) → ℕ → Fingerprint → Protocol → Op
  confidence_lowered :
      Stamp
      → (address : Text) → ℕ
      → (id : Text) (factor : ℕ) (reason source_tool : Text) → Protocol
      → Op
  lead_given : Stamp → (address : Text) → ℕ → VulnLead → Protocol → Op
  emitted : ChangeEvent → Op

module _ (round4 : ℕ → ℕ) (parse_ip : Text → Option Text) where
  unfoldable pub apply : Op → TargetStore → TargetStore
  apply (host_ensured stamp address prov) s = (ensure_host round4 parse_ip stamp address prov s).0
  apply (hostnames_given first second address names prov) s =
      (add_hostnames round4 parse_ip first second address names prov s).0
  apply (port_given stamp address port) s = (record_port round4 stamp address port s).0
  apply (service_given stamp address number service protocol) s =
      (set_service round4 stamp address number service protocol s).0
  apply (fingerprint_given stamp address number f protocol) s =
      (record_fingerprint round4 stamp address number f protocol s).0
  apply (confidence_lowered stamp address number id factor reason tool protocol) s =
      (adjust_fingerprint_confidence round4 stamp address number id factor reason tool protocol s).0
  apply (lead_given stamp address number lead protocol) s =
      (record_lead stamp address number lead protocol s).0
  apply (emitted event) s = emit event s

  unfoldable pub apply_all : List Op → TargetStore → TargetStore
  apply_all [] s = s
  apply_all (op ∷ ops) s = apply_all ops (apply op s)

  apply-Steps : (op : Op) (s : TargetStore) → Steps s 2 (apply op s)
  unfolding apply ensure_host add_hostnames record_port set_service record_fingerprint
      adjust_fingerprint_confidence record_lead
  apply-Steps (host_ensured stamp address prov) s =
      Steps-suc (ensured-Steps round4 parse_ip stamp prov s (validate_address parse_ip address))
  apply-Steps (hostnames_given first second address names prov) s =
      extended-Steps round4 parse_ip second address
        (key_of round4 parse_ip address (validate_address parse_ip address)) names s
        (ensured round4 parse_ip first prov s (validate_address parse_ip address)).0
        (ensured round4 parse_ip first prov s (validate_address parse_ip address)).1
        (ensured-Steps round4 parse_ip first prov s (validate_address parse_ip address))
  apply-Steps (port_given stamp address port) s =
      Steps-suc (port_recorded-Steps round4 stamp address port s (Dict.get s.hosts address))
  apply-Steps (service_given stamp address number service protocol) s =
      Steps-suc
        (service_in-Steps round4 stamp address number service protocol s (Dict.get s.hosts address))
  apply-Steps (fingerprint_given stamp address number f protocol) s = Steps-suc (
      fingerprint_recorded-Steps round4 stamp address number f protocol s
        (require_service address number protocol s))
  apply-Steps (confidence_lowered stamp address number id factor reason tool protocol) s =
      Steps-suc (
        adjusted_at-Steps round4 stamp address number protocol id factor reason tool s
          (require_service address number protocol s))
  apply-Steps (lead_given stamp address number lead protocol) s = Steps-suc (
      lead_recorded-Steps stamp address number lead protocol s
        (require_service address number protocol s))
  apply-Steps (emitted event) s = Steps-suc (told s.hosts event quiet)

  -- No write is silent: after any call the store is as it was, or the count of emitted events is higher.
  pub apply-announced :
      (op : Op) (s : TargetStore)
      → (apply op s ≡ s) ⊎ (s.events_emitted < (apply op s).events_emitted)
  apply-announced op s = Steps-counts (apply-Steps op s)

  -- All events of a run, call by call.
  unfoldable pub history : List Op → TargetStore → List ChangeEvent
  history [] s = []
  history (op ∷ ops) s = events_since s (apply op s) ++ history ops (apply op s)

  -- A run of which each call leaves the store as it was or has an event in the log.
  abbrev pub IsTold : List Op → TargetStore → Type 0
  IsTold [] s = Unit
  IsTold (op ∷ ops) s =
      ((apply op s ≡ s) ⊎ (0 < length (events_since s (apply op s)))) × IsTold ops (apply op s)

  call-told :
      (op : Op) (events : List ChangeEvent) (s : TargetStore)
      → Shows events s
      → (apply op s ≡ s) ⊎ (0 < length (events_since s (apply op s)))
  call-told op events s r =
      let after : Shows (events ++ events_since s (apply op s)) (apply op s) =
        Steps-told events (omega arith) r (apply-Steps op s) in
      elim (apply-announced op s) [
        | inl e ↦ inl e
        | inr l ↦ inr (
            omega (
              arith,
              r.its_count,
              after.its_count,
              length-append events (events_since s (apply op s)),
            ))
      ]

  apply_all-Shows :
      (ops : List Op) (events : List ChangeEvent) (s : TargetStore)
      → Shows events s
      → Shows (events ++ history ops s) (apply_all ops s) × IsTold ops s
  unfolding apply_all history
  apply_all-Shows [] events s r = (rw (append-nil events) r, tt)
  apply_all-Shows (op ∷ ops) events s r =
      let after : Shows (events ++ events_since s (apply op s)) (apply op s) =
        Steps-told events (omega arith) r (apply-Steps op s) in
      let (shown, rest) =
        apply_all-Shows ops (events ++ events_since s (apply op s)) (apply op s) after in
      (
        rw (← append_assoc events (events_since s (apply op s)) (history ops (apply op s))) shown,
        (call-told op events s r, rest),
      )

  -- Whatever sequence of calls is made of a new store, its log is the last 5000 events of the history of the
  -- run, which has the events that each call added to the log; its count is the number of all events of
  -- the history; and each call left the store as it was or added an event.
  pub apply_all-refines :
      (ops : List Op)
      → Shows (history ops new_store) (apply_all ops new_store) × IsTold ops new_store
  unfolding new_store
  apply_all-refines ops =
      apply_all-Shows ops [] new_store (record { its_log = refl; its_count = refl })
