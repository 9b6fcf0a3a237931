-- ===== src/Auth/Tests.antt =====
-- Runs of reconkg/auth.py.
use reconkg.Base.{
  List, ℕ, Bool, if◌then◌else◌, is_empty, true, false, none, some, Option, [], ◌∷◌, ◌≡◌, ◌≢◌, ◌↔◌,
  ◌⊎◌, ◌≤◌, ◌<◌, refl, arith, length,
}
use reconkg.Base.Text.{Text, codes, text_eq, starts_with, strip, lower}
use reconkg.Auth.Load
use reconkg.Base.Dict
use reconkg.Base.Dict.{Dict}
use reconkg.Base.Dict.Unique.{HasUniqueKeys}
use reconkg.Auth.{
  Role, viewer, scanner, operator, admin, level, satisfies, Principal, Result, ok, err, find_token,
  check_expiry, invalid_ticket, granted, denied, resolve, require_role,
}
use reconkg.Auth.Load.{load_principals, loaded, split_on}
use reconkg.Auth.Load.Table.{IsSafeTable, load_principals-IsSafeTable}
use reconkg.Auth.Scope.{may_touch, Reaches, may_touch_iff}
use reconkg.Auth.Access.{Carries, require_role_iff, require_role_forbidden}
use reconkg.Auth.Tickets.{
  Ticket, Tickets, ticket_ttl, issue_ticket, redeem_ticket, is_stale, keys_where, owned_by,
}
use reconkg.Auth.Tickets.Issue.{IsBounded, issue_ticket-others}
use reconkg.Auth.Tickets.Served.{Call, issuing, redeeming, serve_all, serve_all-IsBounded}
use reconkg.Auth.Tickets.Redeem.{IsGood, redeem_ticket_once, redeem_ticket_iff, redeem-issue_ticket}

abbrev ada : Principal
ada = record { name = codes "ada"; role = operator; scope = []; expires_at = some 900 }

abbrev bob : Principal
bob = record { name = codes "bob"; role = viewer; scope = []; expires_at = none }

abbrev principals : Dict Principal
principals = (codes "t-ada", ada) ∷ (codes "t-bob", bob) ∷ []

principals-HasUniqueKeys : HasUniqueKeys principals
unfolding Dict.get text_eq
principals-HasUniqueKeys = (refl, (refl, tt))

abbrev header : Option Text
header = some (codes "Bearer t-ada")

require_role_iff_example :
    (require_role operator principals 100 header ≡ granted ada)
    ↔ (Carries principals 100 header ada × (level operator ≤ level ada.role))
require_role_iff_example =
    require_role_iff principals 100 principals-HasUniqueKeys operator header ada

require_role_forbidden_example :
    (require_role admin principals 100 header ≡ denied 403)
    ↔ ((p : Principal) × Carries principals 100 header p × (level p.role < level admin))
require_role_forbidden_example =
    require_role_forbidden principals 100 principals-HasUniqueKeys admin header

abbrev bobs : Ticket
bobs = record { owner = bob; expires = 5000 }

abbrev table : Tickets
table = (codes "w-bob", bobs) ∷ []

table-HasUniqueKeys : HasUniqueKeys table
unfolding Dict.get
table-HasUniqueKeys = (refl, tt)

few : (name : Text) → length (keys_where (owned_by name) table) ≤ 16
unfolding keys_where
few name = ground arith

table-IsBounded : IsBounded table
table-IsBounded = record { unique = table-HasUniqueKeys; total = omega arith; each = few }

bobs_found : Dict.get table (codes "w-bob") ≡ some bobs
unfolding Dict.get text_eq
bobs_found = refl

bobs_live : is_stale 100 bobs ≡ false
unfolding is_stale
bobs_live = refl

other_name : bob.name ≢ ada.name
other_name h = ground arith

other_token : codes "w-bob" ≢ codes "w-ada"
other_token h = ground arith

issue_ticket-others_example :
    Dict.get (issue_ticket 100 101 (codes "w-ada") ada table).0 (codes "w-bob") ≡ some bobs
issue_ticket-others_example =
    issue_ticket-others 100 101 (codes "w-ada") ada table (codes "w-bob") bobs table-HasUniqueKeys
      bobs_found bobs_live other_name other_token

redeem_ticket_once_example :
    (redeem_ticket 200 201
      (some (codes "w-bob"))
      (redeem_ticket 100 101 (some (codes "w-bob")) table).0).1
    ≡ err invalid_ticket
redeem_ticket_once_example = redeem_ticket_once 100 101 200 201 (codes "w-bob") table refl

redeem_ticket_iff_example :
    ((redeem_ticket 100 101 (some (codes "w-bob")) table).1 ≡ ok bob)
    ↔ IsGood table (codes "w-bob") 101 bob
redeem_ticket_iff_example =
    redeem_ticket_iff 100 101 (codes "w-bob") table bob table-HasUniqueKeys refl (omega arith)

issued : (issue_ticket 100 101 (codes "w-ada") ada table).1 ≡ ok (codes "w-ada")
unfolding issue_ticket reconkg.Auth.Tickets.make_room reconkg.Auth.Tickets.evict keys_where
    reconkg.Auth.Tickets.expire_tickets reconkg.Auth.Tickets.pop_all is_stale owned_by
issued = refl

redeem-issue_ticket_example :
    (redeem_ticket 200 201
      (some (codes "w-ada"))
      (issue_ticket 100 101 (codes "w-ada") ada table).0).1
    ≡ ok ada
redeem-issue_ticket_example =
    redeem-issue_ticket 100 101 200 201 (codes "w-ada") ada table table-IsBounded refl issued
      (omega arith) (omega arith)

-- A calendar that knows one day.
abbrev one_day : Text → Option ℕ
one_day text = if text_eq text (codes "2030-01-01") then some 9000 else none

abbrev tokens : Text
tokens =
    codes "ada:operator:0123456789abcdef:10.0.0.0/8;*.htb@2030-01-01, box:scanner:fedcba9876543210"

abbrev ada_token : Text
ada_token = codes "0123456789abcdef"

abbrev loaded_table : Dict Principal
loaded_table =
    (
      ada_token,
      record {
        name = codes "ada";
        role = operator;
        scope = codes "10.0.0.0/8" ∷ codes "*.htb" ∷ [];
        expires_at = some 9000;
      },
    )
    ∷ (
      codes "fedcba9876543210",
      record { name = codes "box"; role = scanner; scope = []; expires_at = none },
    )
    ∷ []

tokens_loaded : load_principals one_day tokens ≡ loaded loaded_table
unfolding load_principals Load.load_entries Load.parse_entry Load.parse_fields Load.parse_spec
    Load.expiring Load.find_role Load.admit Load.scope_of Load.last_at split_on strip text_eq lower
    Dict.get Dict.put
tokens_loaded = refl

load_principals-IsSafeTable_example :
    IsSafeTable loaded_table × (length loaded_table ≡ length (split_on b',' tokens))
load_principals-IsSafeTable_example =
    load_principals-IsSafeTable one_day tokens loaded_table tokens_loaded

abbrev box : Principal
box = record { name = codes "box"; role = scanner; scope = []; expires_at = none }

box_resolved : resolve loaded_table 100 (some (codes "fedcba9876543210")) ≡ ok box
unfolding resolve find_token check_expiry text_eq reconkg.Auth.after_loop
    reconkg.Auth.compare_digest reconkg.Auth.is_ascii
box_resolved = refl

-- A network library that knows 10.0.0.0/8 by its first digits.
abbrev ten : Text → Text → Option Bool
ten network address =
    if text_eq network (codes "10.0.0.0/8") then some (starts_with (codes "10.") address) else none

abbrev lab : Principal
lab = record {
  name = codes "lab";
  role = scanner;
  scope = codes "10.0.0.0/8" ∷ codes "*.htb" ∷ [];
  expires_at = none;
}

may_touch_iff_example :
    (may_touch ten lab (codes "10.1.2.3") ≡ true)
    ↔ ((is_empty lab.scope ≡ true) ⊎ Reaches ten (codes "10.1.2.3") lab.scope)
may_touch_iff_example = may_touch_iff ten lab (codes "10.1.2.3")

abbrev calls : List Call
calls =
    issuing 100 101 (codes "w-ada") ada
    ∷ redeeming 102 103 (some (codes "w-none"))
    ∷ issuing 104 105 (codes "w-bob") bob
    ∷ redeeming 106 107 (some (codes "w-ada"))
    ∷ []

serve_all-IsBounded_example : IsBounded (serve_all calls [])
serve_all-IsBounded_example = serve_all-IsBounded calls
