-- ===== src/Store/Steps.antt =====
-- reconkg/store.py: steps of the store that a client hears of, and the events behind them.
pub mod Writes
use reconkg.Base.{
  ℕ, suc, ◌-◌, ◌≤◌, append-nil, append_assoc, sym, drop, ◌<◌, Option, none, some, List, [], ◌∷◌,
  ◌++◌, is_empty, length, last_of, last_of-append, length-append, last_of-append, length-append,
  ◌≡◌, refl, ◌∙◌, ap, ◌⊎◌, inl, inr, arith, Bool-cases,
}
use reconkg.Base.Text.{Text}
use reconkg.Base.Dict
use reconkg.Base.Dict.{Dict}
use reconkg.Models.{Provenance, GraphNode, decay}
use reconkg.Models.Graph.{Fingerprint, VulnLead, Service, Port, Protocol, Host, find_port}
use reconkg.Auth.Address.{validate_address}
use reconkg.Store.{
  Stamp, ChangeEvent, TargetStore, new_store, max_event_log, emit, last_events, with_host,
  WriteResult, done, raised, Place, require_service, new_hostnames,
}
use reconkg.Store.Operations.{
  lead_recorded, record_lead, has_lead, port_recorded, record_port, service_on, service_in,
  set_service, fingerprint_recorded, record_fingerprint, lowered_to, adjusted, adjusted_at,
  adjust_fingerprint_confidence, find_fingerprint,
}
use reconkg.Store.Hosts.{
  new_host, host_made, host_seen_again, ensured, ensure_host, extended, key_of, add_hostnames,
}

-- The table of hosts is only ever changed with an event behind the change, and at most `n` events.
pub data Steps (before : TargetStore) : ℕ → TargetStore → Type 0 where
  quiet : {n : ℕ} → Steps before n before
  told :
      {n : ℕ} {s : TargetStore} (hosts : Dict Host) (event : ChangeEvent)
      → Steps before n s
      → Steps before (suc n) (emit event (record s { hosts = hosts }))

pub Steps-suc : {s : TargetStore} {n : ℕ} {t : TargetStore} → Steps s n t → Steps s (suc n) t
Steps-suc quiet = quiet
Steps-suc (told hosts event r) = told hosts event (Steps-suc r)

-- The events of the log that the count of the store has gone up by.
unfoldable pub events_since : (before after : TargetStore) → List ChangeEvent
events_since before after = last_of (after.events_emitted - before.events_emitted) after.event_log

-- A store that keeps the last of these events and counts all of them.
pub record Shows (events : List ChangeEvent) (s : TargetStore) : Type 0 where
  pub its_log : s.event_log ≡ last_of max_event_log events
  pub its_count : s.events_emitted ≡ length events

pub Steps-counts :
    {s : TargetStore} {n : ℕ} {t : TargetStore}
    → Steps s n t
    → (t ≡ s) ⊎ (s.events_emitted < t.events_emitted)
unfolding emit
Steps-counts quiet = inl refl
Steps-counts (told hosts event r) = inr (elim (Steps-counts r) [
  | inl e ↦ omega (arith, ap (λ u. u.events_emitted) e)
  | inr l ↦ omega arith
])

pub told-Shows :
    (events : List ChangeEvent) (s : TargetStore) (hosts : Dict Host) (event : ChangeEvent)
    → Shows events s
    → Shows (events ++ event ∷ []) (emit event (record s { hosts = hosts }))
unfolding emit last_events
told-Shows events s hosts event r = record {
  its_log =
      ap (λ l. last_of max_event_log (l ++ event ∷ [])) r.its_log
      ∙ last_of-append max_event_log max_event_log events (event ∷ []) (omega arith);
  its_count = omega (arith, r.its_count, length-append events (event ∷ []));
}

-- The events behind a step, that the store shows after all before it.
Steps-Shows :
    {s : TargetStore} (events : List ChangeEvent)
    → Shows events s
    → {n : ℕ} {t : TargetStore} → Steps s n t
    → (more : List ChangeEvent) × (length more ≤ n) × Shows (events ++ more) t
Steps-Shows events r quiet = ([], omega arith, rw (append-nil events) r)
Steps-Shows events r (told hosts event steps) =
    let (more, few, shown) = Steps-Shows events r steps in
    (
      more ++ event ∷ [],
      omega (arith, length-append more (event ∷ [])),
      rw (← append_assoc events more (event ∷ []))
          (told-Shows (events ++ more) _ hosts event shown),
    )

drop-length : {A : Type 0} (xs ys : List A) → drop (length xs) (xs ++ ys) ≡ ys
drop-length [] ys = refl
drop-length (x ∷ xs) ys = drop-length xs ys

drop-length-append :
    {A : Type 0} (xs ys : List A) → drop (length (xs ++ ys) - length ys) (xs ++ ys) ≡ ys
drop-length-append xs ys =
    let front : length (xs ++ ys) - length ys ≡ length xs = omega (arith, length-append xs ys) in
    rw front (drop-length xs ys)

-- Of few events behind a step, none is lost in the log.
pub events_since-Shows :
    (before after : TargetStore) (events more : List ChangeEvent)
    → length more ≤ max_event_log
    → Shows events before
    → Shows (events ++ more) after
    → events_since before after ≡ more
unfolding events_since
events_since-Shows before after events more few r shown =
    let up : after.events_emitted - before.events_emitted ≡ length more =
      omega (arith, shown.its_count, r.its_count, length-append events more) in
    let kept : last_of (length more) (last_of max_event_log (events ++ more) ++ [])
        ≡ last_of (length more) ((events ++ more) ++ []) =
      last_of-append max_event_log (length more) (events ++ more) [] few in
    rw (up, shown.its_log)
      (ap (last_of (length more)) (sym (append-nil (last_of max_event_log (events ++ more))))
        ∙ (kept
            ∙ (ap (last_of (length more)) (append-nil (events ++ more))
                ∙ drop-length-append events more)))

-- What a store shows after a step: the events since, behind all before it.
pub Steps-told :
    {n : ℕ} {s t : TargetStore} (events : List ChangeEvent)
    → n ≤ max_event_log
    → Shows events s
    → Steps s n t
    → Shows (events ++ events_since s t) t
Steps-told {n} {s} {t} events few r steps =
    let (more, short, shown) = Steps-Shows events r steps in
    rw (events_since-Shows s t events more (omega arith) r shown) shown
