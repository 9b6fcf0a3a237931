-- ===== src/Auth/Tickets/Served.antt =====
-- reconkg/auth.py: runs of `issue_ticket` and `redeem_ticket` from the empty table.
use reconkg.Base.{ℕ, Option, List, [], ◌∷◌, arith}
use reconkg.Base.Text.{Text}
use reconkg.Auth.{Principal}
use reconkg.Auth.Tickets.{Tickets, keys_where, issue_ticket, redeem_ticket}
use reconkg.Auth.Tickets.Issue.{IsBounded, issue_ticket-IsBounded}
use reconkg.Auth.Tickets.Redeem.{redeem_ticket-IsBounded}

-- A call, with its readings of the clock.
pub data Call : Type 0 where
  issuing : (now later : ℕ) (fresh : Text) → Principal → Call
  redeeming : (now later : ℕ) (ticket : Option Text) → Call

unfoldable pub serve : Call → Tickets → Tickets
serve (issuing now later fresh principal) table = (issue_ticket now later fresh principal table).0
serve (redeeming now later ticket) table = (redeem_ticket now later ticket table).0

unfoldable pub serve_all : List Call → Tickets → Tickets
serve_all [] table = table
serve_all (call ∷ calls) table = serve_all calls (serve call table)

serve-IsBounded : (call : Call) (table : Tickets) → IsBounded table → IsBounded (serve call table)
unfolding serve
serve-IsBounded (issuing now later fresh principal) table b =
    issue_ticket-IsBounded now later fresh principal table b
serve-IsBounded (redeeming now later ticket) table b =
    redeem_ticket-IsBounded now later ticket table b

serve_all-kept :
    (calls : List Call) (table : Tickets) → IsBounded table → IsBounded (serve_all calls table)
unfolding serve_all
serve_all-kept [] table b = b
serve_all-kept (call ∷ calls) table b =
    serve_all-kept calls (serve call table) (serve-IsBounded call table b)

empty-IsBounded : IsBounded []
unfolding keys_where
empty-IsBounded = record { unique = tt; total = omega arith; each = λ name. omega arith }

-- Whatever tickets are issued and redeemed, in whatever order and by whatever clocks, successfully or not, the
-- table holds each ticket once, 512 at most, and 16 at most of each principal.
pub serve_all-IsBounded : (calls : List Call) → IsBounded (serve_all calls [])
serve_all-IsBounded calls = serve_all-kept calls [] empty-IsBounded
