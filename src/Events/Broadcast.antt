-- ===== src/Events/Broadcast.antt =====
-- Who receives a broadcast of reconkg/events.py.
use reconkg.Base.{
  Bool, true, false, Option, some, List, [], ◌∷◌, if◌then◌else◌, leb, length, drop, ◌≡◌, refl,
  arith, Bool-cases, inl, inr, All, All-append, All-drop, ◌∙◌,
}
use reconkg.Base.Text.{Text, text_eq_refl}
use reconkg.Base.Dict
use reconkg.Base.Dict.{Dict, get-put}
use reconkg.Store.{ChangeEvent}
use reconkg.Events.{
  ClientSession, Message, change, offer, receives, broadcast, on_change, wants, in_scope,
  passes_filter, queue_max, hello, replay_events, recent, greeted, connect,
}

abbrev after : Message → Option Text → ClientSession → ClientSession
after message target s = if receives target s then offer message s else s

get-broadcast :
    (message : Message) (target : Option Text) (sessions : Dict ClientSession) (client : Text)
    (s : ClientSession)
    → Dict.get sessions client ≡ some s
    → Dict.get (broadcast message target sessions).0 client ≡ some (after message target s)
unfolding broadcast Dict.get
get-broadcast message target [] client s h = cc h
get-broadcast message target ((k, t) ∷ sessions) client s h =
    ground (arith, get-broadcast message target sessions client s)

receives-wants :
    (event : ChangeEvent) (s : ClientSession) → receives (some event.target) s ≡ wants s event
unfolding receives wants
receives-wants event s = ground arith

-- A change of the store is offered to a client exactly when the client wants the event, its scope and its
-- filter included; any other client is left as it is.
pub get-on_change :
    (event : ChangeEvent) (sessions : Dict ClientSession) (client : Text) (s : ClientSession)
    → Dict.get sessions client ≡ some s
    → Dict.get (on_change event sessions).0 client
      ≡ some (if wants s event then offer (change false event) s else s)
unfolding on_change
get-on_change event sessions client s h =
    rw (← receives-wants event s)
      (get-broadcast (change false event) (some event.target) sessions client s h)

-- A replayed event is one that the scope and the filter let through.
abbrev pub IsFor : Option (Text → Bool) → Option Text → Message → Type 0
IsFor scope filter (hello client_id target_filter peers) = Unit
IsFor scope filter (change replay event) =
    (in_scope scope event.target ≡ true) × (passes_filter filter event.target ≡ true)

-- The client has this scope and filter, and nothing else in its queue.
record Serves (scope : Option (Text → Bool)) (filter : Option Text) (s : ClientSession)
    : Type 0 where
  its_scope : s.scope ≡ scope
  its_filter : s.target_filter ≡ filter
  its_queue : All (IsFor scope filter) s.queue

offer-Serves :
    (scope : Option (Text → Bool)) (filter : Option Text) (m : Message) (s : ClientSession)
    → IsFor scope filter m
    → Serves scope filter s
    → Serves scope filter (offer m s)
unfolding offer
offer-Serves scope filter m s f h = elim (Bool-cases (leb queue_max (length s.queue))) [
  | inl e ↦ rw e (record {
    its_scope = h.its_scope;
    its_filter = h.its_filter;
    its_queue =
        All-append (IsFor scope filter) (drop 1 s.queue) (m ∷ [])
          (All-drop (IsFor scope filter) 1 s.queue h.its_queue) (f, tt);
  })
  | inr e ↦ rw e (record {
    its_scope = h.its_scope;
    its_filter = h.its_filter;
    its_queue = All-append (IsFor scope filter) s.queue (m ∷ []) h.its_queue (f, tt);
  })
]

wants_inv :
    (s : ClientSession) (event : ChangeEvent)
    → wants s event ≡ true
    → (in_scope s.scope event.target ≡ true) × (passes_filter s.target_filter event.target ≡ true)
unfolding wants
wants_inv s event h = ground arith

replay_events-Serves :
    (scope : Option (Text → Bool)) (filter : Option Text) (events : List ChangeEvent)
    (s : ClientSession)
    → Serves scope filter s
    → Serves scope filter (replay_events events s)
unfolding replay_events
replay_events-Serves scope filter [] s h = h
replay_events-Serves scope filter (event ∷ events) s h = elim (Bool-cases (wants s event)) [
  | inl e ↦
      let passes : IsFor scope filter (change true event) =
        rw (← h.its_scope, ← h.its_filter) (wants_inv s event e) in
      rw e (
        replay_events-Serves scope filter events (offer (change true event) s)
          (offer-Serves scope filter (change true event) s passes h))
  | inr e ↦ rw e (replay_events-Serves scope filter events s h)
]

-- A client that connects is in the table, and each event that is replayed to it is one that its scope and
-- its filter let through.
pub connect-IsFor :
    (client : Text) (filter : Option Text) (scope : Option (Text → Bool)) (log : List ChangeEvent)
    (sessions : Dict ClientSession)
    → (s : ClientSession) × (Dict.get (connect client filter scope log sessions) client ≡ some s)
      × All (IsFor scope filter) s.queue
unfolding connect greeted
connect-IsFor client filter scope log sessions =
    let new : ClientSession = record {
      client_id = client;
      target_filter = filter;
      scope = scope;
      queue = [];
      dropped = 0;
    } in
    let table : Dict ClientSession = Dict.put sessions client new in
    let greeting : Message = hello client filter (length table) in
    let h : Serves scope filter (replay_events (recent log) (offer greeting new)) =
      replay_events-Serves scope filter (recent log) (offer greeting new) (
        offer-Serves scope filter greeting new tt
          (record { its_scope = refl; its_filter = refl; its_queue = tt })) in
    (
      replay_events (recent log) (offer greeting new),
      get-put table client client (replay_events (recent log) (offer greeting new))
          ∙ (rw (text_eq_refl client) refl),
      h.its_queue,
    )
