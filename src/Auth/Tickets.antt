-- ===== src/Auth/Tickets.antt =====
-- reconkg/auth.py: the table of WebSocket tickets of `Authenticator`.
pub mod Keys
pub mod Issue
pub mod Redeem
pub mod Served
use reconkg.Base.{
  ℕ, zero, suc, ◌+◌, ◌*◌, Bool, true, false, Option, none, some, List, [], ◌∷◌, if◌then◌else◌, leb,
  ltb, length, is_empty,
}
use reconkg.Base.Text.{Text, text_eq}
use reconkg.Base.Dict
use reconkg.Base.Dict.{Dict}
use reconkg.Auth.{
  Principal, AuthError, Result, ok, err, missing_ticket, invalid_ticket, ticket_expired, table_full,
}

pub record Ticket : Type 0 where
  pub owner : Principal
  pub expires : ℕ

abbrev pub Tickets : Type 0
Tickets = Dict Ticket

abbrev pub second : ℕ
second = 1000000000

abbrev pub ticket_ttl : ℕ
ticket_ttl = 60 * second

abbrev pub max_outstanding : ℕ
max_outstanding = 512

abbrev pub max_per_principal : ℕ
max_per_principal = 16

-- The keys of the entries that meet a test, in order.
unfoldable pub keys_where : (Ticket → Bool) → Tickets → List Text
keys_where test [] = []
keys_where test ((k, t) ∷ rest) =
    let others = keys_where test rest in if test t then k ∷ others else others

unfoldable pub pop_all : Tickets → List Text → Tickets
pop_all table [] = table
pop_all table (k ∷ ks) = pop_all (Dict.pop table k) ks

unfoldable pub is_stale : ℕ → Ticket → Bool
is_stale now t = ltb t.expires now

-- `_expire_tickets`.
unfoldable pub expire_tickets : ℕ → Tickets → Tickets
expire_tickets now table = pop_all table (keys_where (is_stale now) table)

unfoldable pub owned_by : Text → Ticket → Bool
owned_by name t = text_eq t.owner.name name

-- `self._tickets[t][1]`; the keys in question are all in the table.
unfoldable pub expiry_of : Tickets → Text → ℕ
expiry_of table k = elim (Dict.get table k) [ none ↦ 0 | some t ↦ t.expires ]

-- `min(mine, key=...)` of a list with a first element.
unfoldable pub oldest_from : Tickets → Text → List Text → Text
oldest_from table best [] = best
oldest_from table best (k ∷ ks) =
    oldest_from table (if ltb (expiry_of table k) (expiry_of table best) then k else best) ks

-- `mine.remove(k)`: the first occurrence.
unfoldable pub remove : Text → List Text → List Text
remove k [] = []
remove k (j ∷ js) = let rest = remove k js in if text_eq j k then js else j ∷ rest

-- The `while` loop of `issue_ticket`, one round for each unit of fuel.
unfoldable pub evict : ℕ → Tickets → List Text → Tickets
evict zero table mine = table
evict (suc fuel) table [] = table
evict (suc fuel) table (k ∷ ks) =
    let oldest = oldest_from table k ks in
    let rest = evict fuel (Dict.pop table oldest) (remove oldest (k ∷ ks)) in
    if leb max_per_principal (length (k ∷ ks)) then rest else table

-- The table of `issue_ticket` before the test of its size. A round takes one key from the list, so
-- as much fuel as it has keys is enough.
unfoldable pub make_room : ℕ → Principal → Tickets → Tickets
make_room now principal table =
    let live = expire_tickets now table in
    let mine = keys_where (owned_by principal.name) live in evict (length mine) live mine

-- `issue_ticket`: `now` and `later` are its two readings of the clock, and `fresh` is the token that
-- `secrets` makes.
unfoldable pub issue_ticket : (now later : ℕ) → Text → Principal → Tickets → Tickets × Result Text
issue_ticket now later fresh principal table =
    let room = make_room now principal table in
    if leb max_outstanding (length room) then (room, err table_full) else (
      Dict.put room fresh (record { owner = principal; expires = later + ticket_ttl }),
      ok fresh,
    )

unfoldable pub check_ticket : ℕ → Option Ticket → Result Principal
check_ticket now none = err invalid_ticket
check_ticket now (some t) = if ltb t.expires now then err ticket_expired else ok t.owner

unfoldable pub redeem_live : ℕ → Option Text → Tickets → Tickets × Result Principal
redeem_live later none live = (live, err missing_ticket)
redeem_live later (some ticket) live =
    if is_empty ticket
    then (live, err missing_ticket)
    else (Dict.pop live ticket, check_ticket later (Dict.get live ticket))

-- `redeem_ticket`.
unfoldable pub redeem_ticket : (now later : ℕ) → Option Text → Tickets → Tickets × Result Principal
redeem_ticket now later ticket table = redeem_live later ticket (expire_tickets now table)
