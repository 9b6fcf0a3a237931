-- ===== src/Events/Replay.antt =====
-- reconkg/events.py: what the log of the store has for a client that connects.
use reconkg.Base.{
  ℕ, List, [], ◌∷◌, ◌++◌, Option, last_of, last_of-append, append-nil, ◌≡◌, sym, ◌∙◌, ap, arith,
}
use reconkg.Base.Text.{Text}
use reconkg.Store.Steps.{told-Shows}
use reconkg.Store.{ChangeEvent, emit, new_store, max_event_log}
use reconkg.Store.Announced.{Op, apply_all, history, apply_all-refines}
use reconkg.Events.{recent, replay_on_connect}

last_of-last_of :
    (events : List ChangeEvent)
    → last_of replay_on_connect (last_of max_event_log events) ≡ last_of replay_on_connect events
last_of-last_of events =
    ap (last_of replay_on_connect) (sym (append-nil (last_of max_event_log events)))
    ∙ (last_of-append max_event_log replay_on_connect events [] (omega arith)
        ∙ ap (last_of replay_on_connect) (append-nil events))

module _ (round4 : ℕ → ℕ) (parse_ip : Text → Option Text) where
  -- Whatever calls were made of a new store, the events that are offered to a client that connects are chosen
  -- from the last 100 of the history of the run, all events that its calls added to the log: the ring that
  -- the store keeps loses none of them. When one more event is emitted, they are chosen from the last 100 of
  -- the history with that event behind it.
  pub recent-apply_all :
      (ops : List Op) (event : ChangeEvent)
      → (recent (apply_all round4 parse_ip ops new_store).event_log
          ≡ last_of 100 (history round4 parse_ip ops new_store))
        × (recent (emit event (apply_all round4 parse_ip ops new_store)).event_log
            ≡ last_of 100 (history round4 parse_ip ops new_store ++ event ∷ []))
  unfolding recent
  recent-apply_all ops event =
      let s = apply_all round4 parse_ip ops new_store in
      let events = history round4 parse_ip ops new_store in
      let shown = (apply_all-refines round4 parse_ip ops).0 in
      (
        ap (last_of replay_on_connect) shown.its_log ∙ last_of-last_of events,
        ap (last_of replay_on_connect) (told-Shows events s s.hosts event shown).its_log
            ∙ last_of-last_of (events ++ event ∷ []),
      )
