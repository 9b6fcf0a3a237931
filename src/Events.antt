-- ===== src/Events.antt =====
-- reconkg/events.py: the queue of an analyst's client, and the broadcast to all of them. The writer task
-- of a client is one `pump` for each message it sends.
pub mod Queue
pub mod Broadcast
pub mod Replay
mod Tests
use reconkg.Base.{
  ℕ, suc, ◌+◌, ◌-◌, Bool, true, false, ◌&&◌, not, Option, none, some, List, [], ◌∷◌, ◌++◌,
  if◌then◌else◌, leb, length, drop, last_of,
}
use reconkg.Base.Text.{Text, text_eq}
use reconkg.Base.Dict
use reconkg.Base.Dict.{Dict}
use reconkg.Store.{ChangeEvent}

abbrev pub queue_max : ℕ
queue_max = 512

abbrev pub replay_on_connect : ℕ
replay_on_connect = 100

-- The messages that are offered; `change` is `_encode`.
pub data Message : Type 0 where
  hello : (client_id : Text) (target_filter : Option Text) (peers : ℕ) → Message
  change : (replay : Bool) → ChangeEvent → Message

pub record ClientSession : Type 0 where
  pub client_id : Text
  pub target_filter : Option Text
  pub scope : Option (Text → Bool)
  pub queue : List Message
  pub dropped : ℕ

unfoldable pub in_scope : Option (Text → Bool) → Text → Bool
in_scope none target = true
in_scope (some scope) target = scope target

-- `target_filter in (None, target)`.
unfoldable pub passes_filter : Option Text → Text → Bool
passes_filter none target = true
passes_filter (some filter) target = text_eq filter target

unfoldable pub wants : ClientSession → ChangeEvent → Bool
wants s event =
    if not (in_scope s.scope event.target)
    then false
    else passes_filter s.target_filter event.target

unfoldable pub offer : Message → ClientSession → ClientSession
offer message s =
    if leb queue_max (length s.queue)
    then record s { queue = drop 1 s.queue ++ message ∷ []; dropped = s.dropped + 1 }
    else record s { queue = s.queue ++ message ∷ [] }

-- What is sent: a message, with `_dropped_before` where that is not 0.
pub record Sent : Type 0 where
  pub message : Message
  pub dropped_before : ℕ

-- One round of `_pump`; nothing is sent while the queue is empty.
unfoldable pub pump : ClientSession → List Sent × ClientSession
pump s = elim s.queue [
  | [] ↦ ([], s)
  | message ∷ queue ↦ (
    record { message = message; dropped_before = s.dropped } ∷ [],
    record s { queue = queue; dropped = 0 },
  )
]

-- The two `continue` of `broadcast`.
unfoldable pub receives : Option Text → ClientSession → Bool
receives none s = true
receives (some target) s = passes_filter s.target_filter target && in_scope s.scope target

unfoldable pub broadcast : Message → Option Text → Dict ClientSession → Dict ClientSession × ℕ
broadcast message target [] = ([], 0)
broadcast message target ((client, s) ∷ sessions) =
    let (rest, sent) = broadcast message target sessions in
    if receives target s
    then ((client, offer message s) ∷ rest, suc sent)
    else ((client, s) ∷ rest, sent)

-- `_on_change`.
unfoldable pub on_change : ChangeEvent → Dict ClientSession → Dict ClientSession × ℕ
on_change event sessions = broadcast (change false event) (some event.target) sessions

-- The loop of `connect` over the recent events.
unfoldable pub replay_events : List ChangeEvent → ClientSession → ClientSession
replay_events [] s = s
replay_events (event ∷ events) s =
    replay_events events (if wants s event then offer (change true event) s else s)

unfoldable pub recent : List ChangeEvent → List ChangeEvent
recent = last_of replay_on_connect

unfoldable pub greeted : ClientSession → (peers : ℕ) → List ChangeEvent → ClientSession
greeted s peers log = replay_events (recent log) (offer (hello s.client_id s.target_filter peers) s)

unfoldable pub connect :
    (client_id : Text) (target_filter : Option Text) (scope : Option (Text → Bool))
    → List ChangeEvent
    → Dict ClientSession
    → Dict ClientSession
connect client_id target_filter scope log sessions =
    let s : ClientSession = record {
      client_id = client_id;
      target_filter = target_filter;
      scope = scope;
      queue = [];
      dropped = 0;
    } in
    let table = Dict.put sessions client_id s in
    Dict.put table client_id (greeted s (length table) log)

unfoldable pub disconnect : (client_id : Text) → Dict ClientSession → Dict ClientSession
disconnect client_id sessions = Dict.pop sessions client_id
