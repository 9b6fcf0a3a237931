-- ===== src/Events/Queue.antt =====
-- The queue of a client of reconkg/events.py over any sequence of offers and rounds of its writer.
use reconkg.Base.{
  ℕ, suc, ◌+◌, ◌≤◌, List, [], ◌∷◌, ◌++◌, leb, length, drop, ◌≡◌, arith, Bool-cases, inl, inr,
  length-append,
}
use reconkg.Events.{ClientSession, Message, Sent, queue_max, offer, pump}

pub data Action : Type 0 where
  offered : Message → Action
  pumped : Action

-- What the actions send in order, and the session they leave.
unfoldable pub run : List Action → ClientSession → List Sent × ClientSession
run [] s = ([], s)
run (offered message ∷ actions) s = run actions (offer message s)
run (pumped ∷ actions) s =
    let (sent, s') = pump s in let (more, last) = run actions s' in (sent ++ more, last)

abbrev pub offers : List Action → ℕ
offers [] = 0
offers (offered message ∷ actions) = suc (offers actions)
offers (pumped ∷ actions) = offers actions

-- The messages that are sent, and those that the marks on them report as dropped.
abbrev pub accounted : List Sent → ℕ
accounted [] = 0
accounted (sent ∷ more) = suc (sent.dropped_before + accounted more)

abbrev pending : ClientSession → ℕ
pending s = s.dropped + length s.queue

offer-pending : (m : Message) (s : ClientSession) → pending (offer m s) ≡ suc (pending s)
unfolding offer
offer-pending m s = elim (Bool-cases (leb queue_max (length s.queue))) [
  | inl e ↦ rw e (full s.queue (ground (arith, e)))
  | inr e ↦ rw e (omega (arith, length-append s.queue (m ∷ [])))
]
  where
    full :
        (q : List Message)
        → 1 ≤ length q
        → s.dropped + 1 + length (drop 1 q ++ m ∷ []) ≡ suc (s.dropped + length q)
    full [] h = absurd (omega arith)
    full (x ∷ q) h = omega (arith, length-append q (m ∷ []))

offer-bound :
    (m : Message) (s : ClientSession)
    → length s.queue ≤ queue_max
    → length (offer m s).queue ≤ queue_max
unfolding offer
offer-bound m s h = elim (Bool-cases (leb queue_max (length s.queue))) [
  | inl e ↦ rw e (full s.queue h (ground (arith, e)))
  | inr e ↦ rw e (ground (arith, e, length-append s.queue (m ∷ [])))
]
  where
    full :
        (q : List Message)
        → length q ≤ queue_max
        → 1 ≤ length q
        → length (drop 1 q ++ m ∷ []) ≤ queue_max
    full [] h k = absurd (omega arith)
    full (x ∷ q) h k = omega (arith, h, length-append q (m ∷ []))

accounted-append : (xs ys : List Sent) → accounted (xs ++ ys) ≡ accounted xs + accounted ys
accounted-append [] ys = omega arith
accounted-append (x ∷ xs) ys = omega (arith, accounted-append xs ys)

pump-pending : (s : ClientSession) → accounted (pump s).0 + pending (pump s).1 ≡ pending s
unfolding pump
pump-pending s = go s.queue
  where
    go :
        (q : List Message)
        → accounted (pump (record s { queue = q })).0 + pending (pump (record s { queue = q })).1
          ≡ s.dropped + length q
    go [] = omega arith
    go (x ∷ q) = omega arith

pump-bound : (s : ClientSession) → length s.queue ≤ queue_max → length (pump s).1.queue ≤ queue_max
unfolding pump
pump-bound s = go s.queue
  where
    go :
        (q : List Message)
        → length q ≤ queue_max
        → length (pump (record s { queue = q })).1.queue ≤ queue_max
    go [] h = h
    go (x ∷ q) h = omega (arith, h)

-- Whatever is offered and whenever the writer runs, no message is lost silently: those that are sent, those
-- that the marks on them report as dropped, and those that are pending, still queued or dropped and not yet
-- reported, are together the messages that were pending at first and those that were offered since.
pub run-accounted :
    (actions : List Action) (s : ClientSession)
    → accounted (run actions s).0 + ((run actions s).1.dropped + length (run actions s).1.queue)
      ≡ s.dropped + length s.queue + offers actions
unfolding run
run-accounted [] s = omega arith
run-accounted (offered m ∷ actions) s =
    omega (arith, run-accounted actions (offer m s), offer-pending m s)
run-accounted (pumped ∷ actions) s = omega (
  arith,
  run-accounted actions (pump s).1,
  pump-pending s,
  accounted-append (pump s).0 (run actions (pump s).1).0,
)

-- From a queue of 512 messages or fewer, the queue has 512 or fewer after any offers and rounds of the
-- writer.
pub run-bound :
    (actions : List Action) (s : ClientSession)
    → length s.queue ≤ queue_max
    → length (run actions s).1.queue ≤ queue_max
unfolding run
run-bound [] s h = h
run-bound (offered m ∷ actions) s h = run-bound actions (offer m s) (offer-bound m s h)
run-bound (pumped ∷ actions) s h = run-bound actions (pump s).1 (pump-bound s h)
