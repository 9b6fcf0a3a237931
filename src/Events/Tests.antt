-- ===== src/Events/Tests.antt =====
-- Runs of reconkg/events.py.
use reconkg.Base.{
  ◌++◌, ◌+◌, Bool, false, Option, none, some, List, [], ◌∷◌, if◌then◌else◌, length, All, ◌≡◌, refl,
  ℕ, last_of,
}
use reconkg.Base.Text.{Text, codes, text_eq}
use reconkg.Base.Dict
use reconkg.Base.Dict.{Dict}
use reconkg.Store.Announced.{history, emitted, apply_all}
use reconkg.Events.Replay.{recent-apply_all}
use reconkg.Store.{emit, new_store, ChangeEvent, service_set, hostnames_added}
use reconkg.Events.{ClientSession, hello, change, recent, wants, offer, on_change, connect}
use reconkg.Events.Queue.{Action, offered, pumped, run, offers, accounted, run-accounted}
use reconkg.Events.Broadcast.{IsFor, get-on_change, connect-IsFor}

abbrev event : ChangeEvent
event = record {
  stamp = record { event_id = codes "e1"; ts = 100 };
  kind = service_set;
  target = codes "10.0.0.5";
  path = codes "10.0.0.5";
  payload = hostnames_added [];
}

abbrev only_lab : Option (Text → Bool)
only_lab = some (text_eq (codes "10.0.0.9"))

abbrev ada : ClientSession
ada = record {
  client_id = codes "ada";
  target_filter = none;
  scope = none;
  queue = [];
  dropped = 0;
}

abbrev bob : ClientSession
bob = record {
  client_id = codes "bob";
  target_filter = none;
  scope = only_lab;
  queue = [];
  dropped = 3;
}

abbrev actions : List Action
actions = offered (change false event) ∷ pumped ∷ offered (hello (codes "bob") none 2) ∷ []

run-accounted_example :
    accounted (run actions bob).0 + ((run actions bob).1.dropped + length (run actions bob).1.queue)
    ≡ bob.dropped + length bob.queue + offers actions
run-accounted_example = run-accounted actions bob

abbrev sessions : Dict ClientSession
sessions = (codes "ada", ada) ∷ (codes "bob", bob) ∷ []

bob_found : Dict.get sessions (codes "bob") ≡ some bob
unfolding Dict.get text_eq
bob_found = refl

get-on_change_example :
    Dict.get (on_change event sessions).0 (codes "bob")
    ≡ some (if wants bob event then offer (change false event) bob else bob)
get-on_change_example = get-on_change event sessions (codes "bob") bob bob_found

connect-IsFor_example :
    (s : ClientSession) × (Dict.get
        (connect (codes "eve") none only_lab (event ∷ []) sessions)
        (codes "eve")
      ≡ some s)
    × All (IsFor only_lab none) s.queue
connect-IsFor_example = connect-IsFor (codes "eve") none only_lab (event ∷ []) sessions

abbrev no_ip : Text → Option Text
no_ip t = none

abbrev same : ℕ → ℕ
same n = n

recent-apply_all_example :
    (recent (apply_all same no_ip (emitted event ∷ emitted event ∷ []) new_store).event_log
      ≡ last_of 100 (history same no_ip (emitted event ∷ emitted event ∷ []) new_store))
    × (recent
          (emit event
            (apply_all same no_ip (emitted event ∷ emitted event ∷ []) new_store)).event_log
        ≡ last_of 100
            (history same no_ip (emitted event ∷ emitted event ∷ []) new_store ++ event ∷ []))
recent-apply_all_example = recent-apply_all same no_ip (emitted event ∷ emitted event ∷ []) event
