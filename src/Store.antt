-- ===== src/Store.antt =====
-- reconkg/store.py: the graph of hosts with its log of changes. An operation under the lock and its `emit`
-- are one step: no `await` stands between the change and the append to the log. Subscribers are called
-- behind that append and cannot change the outcome, so `emit` is its effect on the log. `add_hostnames` takes
-- the lock twice, and is modelled where no other writer comes between. The identifier and the instant that an
-- event is given are the argument `stamp`; its instant is also the one of an observation that `decay` makes.
pub mod Operations
pub mod Hosts
pub mod Steps
pub mod Announced
pub mod Unique
pub mod Graph
mod Tests
use reconkg.Base.{
  ℕ, suc, ◌+◌, ◌-◌, Bool, true, false, ◌&&◌, ◌||◌, not, Option, none, some, List, [], ◌∷◌, ◌++◌,
  map, if◌then◌else◌, ◌==◌, is_empty, any, length, last_of, Ordering,
}
use reconkg.Base.Text.{Text, codes, text_eq}
use reconkg.Base.Dict
use reconkg.Base.Dict.{Dict}
use reconkg.Version.{compare_text}
use reconkg.Commands.Validate.{show_number}
use reconkg.Vulnref.{ExploitMaturity}
use reconkg.Models.{Provenance, GraphNode, new_node, observe, decay}
use reconkg.Models.Graph.{
  Fingerprint, VulnLead, Rationale, Service, Port, PortState, Protocol, tcp, udp, Host, key, is_at,
  find_port, upsert_fingerprint, upsert_port,
}
use reconkg.Auth.Address.{validate_address}

pub data EventKind : Type 0 where
  host_added host_updated port_added port_updated service_set fingerprint_added : EventKind
  fingerprint_confidence lead_added stage_started stage_finished pipeline_started : EventKind
  pipeline_finished ledger_ready : EventKind

pub data Payload : Type 0 where
  host_seen : (address : Text) (confidence : ℕ) (source principal : Text) → Payload
  hostnames_added : List Text → Payload
  port_seen : (port : ℕ) → Protocol → PortState → (confidence : ℕ) (source : Text) → Payload
  service_seen : (service : Text) (confidence : ℕ) (source : Text) → Payload
  fingerprint_seen :
      (product version : Option Text) (ambiguous : Bool) (confidence : ℕ)
      (corroborated_by : List Text) (source : Text)
      → Payload
  lowered : (confidence : ℕ) (reason source : Text) → Payload
  lead_seen : (cve_id : Text) (cvss priority : ℕ) → ExploitMaturity → Rationale → Payload

pub record Stamp : Type 0 where
  pub event_id : Text
  pub ts : ℕ

pub record ChangeEvent : Type 0 where
  pub stamp : Stamp
  pub kind : EventKind
  pub target : Text
  pub path : Text
  pub payload : Payload

abbrev pub max_event_log : ℕ
max_event_log = 5000

pub record TargetStore : Type 0 where
  pub hosts : Dict Host
  pub event_log : List ChangeEvent
  pub events_emitted : ℕ

unfoldable pub new_store : TargetStore
new_store = record { hosts = []; event_log = []; events_emitted = 0 }

-- `KeyError` and `ValueError`.
pub data StoreError : Type 0 where
  key_error value_error : StoreError

pub data WriteResult {ℓ} (A : Type ℓ) : Type ℓ where
  done : A → WriteResult A
  raised : StoreError → WriteResult A

-- The deque keeps the last `max_event_log` entries.
unfoldable pub last_events : List ChangeEvent → List ChangeEvent
last_events = last_of max_event_log

unfoldable pub emit : ChangeEvent → TargetStore → TargetStore
emit event store = record store {
  event_log = last_events (store.event_log ++ event ∷ []);
  events_emitted = suc store.events_emitted;
}

unfoldable pub with_host : Text → Host → TargetStore → TargetStore
with_host address host store = record store { hosts = Dict.put store.hosts address host }

unfoldable pub show_protocol : Protocol → Text
show_protocol tcp = codes "tcp"
show_protocol udp = codes "udp"

unfoldable pub port_path : (address : Text) → Protocol → ℕ → Text
port_path address protocol number =
    address ++ b'/' ∷ (show_protocol protocol ++ b':' ∷ show_number number)

unfoldable pub service_path : (address : Text) → Protocol → ℕ → (tail : Text) → Text
service_path address protocol number tail = port_path address protocol number ++ b'/' ∷ tail

-- `sorted` of the set of a list's texts.
unfoldable pub insert_text : Text → List Text → List Text
insert_text t [] = t ∷ []
insert_text t (u ∷ us) =
    let rest = insert_text t us in
    elim (compare_text t u) [
      | Ordering.lt ↦ t ∷ u ∷ us
      | Ordering.eq ↦ u ∷ us
      | Ordering.gt ↦ u ∷ rest
    ]

unfoldable pub sorted_set : List Text → List Text
sorted_set [] = []
sorted_set (t ∷ ts) = insert_text t (sorted_set ts)

unfoldable pub tools : GraphNode → List Text
tools node = sorted_set (map (λ p. p.source_tool) node.provenance_log)

-- The place of a port is replaced where it stands.
unfoldable pub replace_port : Port → List Port → List Port
replace_port new [] = []
replace_port new (old ∷ ps) =
    let rest = replace_port new ps in
    if is_at new.number new.protocol old then new ∷ ps else old ∷ rest

unfoldable pub with_port : Port → Host → Host
with_port port host = record host { ports = replace_port port host.ports }

unfoldable pub new_hostnames : List Text → (given : List Text) → List Text
new_hostnames known [] = []
new_hostnames known (h ∷ hs) =
    let rest = new_hostnames known hs in if any (text_eq h) known then rest else h ∷ rest

-- `_require_service`: the host, its port and the service there.
pub record Place : Type 0 where
  pub host : Host
  pub port : Port
  pub service : Service

unfoldable pub service_of : Host → Option Port → Option Place
service_of host none = none
service_of host (some port) = elim port.service [
  | none ↦ none
  | some service ↦ some (record { host = host; port = port; service = service })
]

unfoldable pub require_service : Text → ℕ → Protocol → TargetStore → Option Place
require_service address number protocol store = elim (Dict.get store.hosts address) [
  | none ↦ none
  | some host ↦ service_of host (find_port number protocol host)
]

-- The host of a place with another service there.
unfoldable pub with_service : Place → Service → Host
with_service place service = with_port (record place.port { service = some service }) place.host
