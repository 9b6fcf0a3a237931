-- ===== src/Auth/Tickets/Issue.antt =====
-- reconkg/auth.py: `issue_ticket` and the two caps.
pub mod Evict
use reconkg.Base.{
  ℕ, zero, suc, ◌+◌, ◌≤◌, ◌<◌, Bool, true, false, Option, none, some, List, [], ◌∷◌, ◌≡◌, ◌≢◌, refl,
  sym, ◌∙◌, arith, if◌then◌else◌, length, leb, Bool-cases, inl, inr,
}
use reconkg.Base.Text.{Text, text_eq, eq_of_text_eq, text_eq_refl}
use reconkg.Base.Dict
use reconkg.Base.Dict.{get-put, length-put}
use reconkg.Base.Dict.Unique.{HasUniqueKeys, put-HasUniqueKeys}
use reconkg.Auth.{Principal, Result, ok, err}
use reconkg.Auth.Tickets.{
  Ticket, Tickets, keys_where, is_stale, expire_tickets, owned_by, evict, make_room, issue_ticket,
  max_outstanding, max_per_principal, ticket_ttl,
}
use reconkg.Auth.Tickets.Keys.{
  has, get-pop_all, pop_all-HasUniqueKeys, has-keys_where, keys_where-pop_all-Sub, Sub, Sub-refl,
  Sub-trans, length-Sub,
}
use reconkg.Auth.Tickets.Issue.Evict.{
  get-evict, evict-count, evict-Sub, length-evict, evict-HasUniqueKeys, length-pop_all,
}

-- The invariant of the table: its keys are distinct, it holds at most 512 tickets, and at most 16 of
-- each principal.
pub record IsBounded (table : Tickets) : Type 0 where
  pub unique : HasUniqueKeys table
  pub total : length table ≤ max_outstanding
  pub each : (name : Text) → length (keys_where (owned_by name) table) ≤ max_per_principal

pub get-expire_tickets :
    (now : ℕ) (table : Tickets) (j : Text) (t : Ticket)
    → HasUniqueKeys table
    → Dict.get table j ≡ some t
    → Dict.get (expire_tickets now table) j ≡ (if is_stale now t then none else some t)
unfolding expire_tickets
get-expire_tickets now table j t u h = rw (
  get-pop_all table (keys_where (is_stale now) table) j,
  has-keys_where (is_stale now) table j t u h,
  h,
)

pub expire_tickets-IsBounded :
    (now : ℕ) (table : Tickets) → IsBounded table → IsBounded (expire_tickets now table)
unfolding expire_tickets
expire_tickets-IsBounded now table b = record {
  unique = pop_all-HasUniqueKeys table _ b.unique;
  total = omega (arith, length-pop_all table (keys_where (is_stale now) table), b.total);
  each = λ name. omega (
    arith,
    length-Sub (keys_where-pop_all-Sub (owned_by name) table (keys_where (is_stale now) table)),
    b.each name,
  );
}

module _ (now : ℕ) (principal : Principal) {table : Tickets} (b : IsBounded table) where
  -- The room that is made: below the principal's cap, and no more of anyone than before.
  make_room-own :
      length (keys_where (owned_by principal.name) (make_room now principal table))
      < max_per_principal
  unfolding make_room
  make_room-own =
      evict-count _ (owned_by principal.name) (expire_tickets now table) _ (Sub-refl _)
        (omega arith)

  make_room-IsBounded : IsBounded (make_room now principal table)
  unfolding make_room
  make_room-IsBounded =
      let live : IsBounded (expire_tickets now table) = expire_tickets-IsBounded now table b in
      record {
        unique = evict-HasUniqueKeys _ (expire_tickets now table) _ live.unique;
        total = omega (
          arith,
          length-evict _ (expire_tickets now table)
              (keys_where (owned_by principal.name) (expire_tickets now table)),
          live.total,
        );
        each = λ name. omega (
          arith,
          length-Sub (
              evict-Sub _ (owned_by name) (expire_tickets now table)
                (keys_where (owned_by principal.name) (expire_tickets now table))),
          live.each name,
        );
      }

length-keys_where-put :
    (test : Ticket → Bool) (d : Tickets) (k : Text) (t : Ticket)
    → length (keys_where test (Dict.put d k t)) ≤ length (keys_where test d) + 1
unfolding keys_where Dict.put
length-keys_where-put test [] k t = ground arith
length-keys_where-put test ((j, s) ∷ d) k t = ground (arith, length-keys_where-put test d k t)

length-keys_where-put_ne :
    (test : Ticket → Bool) (d : Tickets) (k : Text) (t : Ticket)
    → test t ≡ false
    → length (keys_where test (Dict.put d k t)) ≤ length (keys_where test d)
unfolding keys_where Dict.put
length-keys_where-put_ne test [] k t h = ground arith
length-keys_where-put_ne test ((j, s) ∷ d) k t h =
    ground (arith, length-keys_where-put_ne test d k t h)

get-make_room :
    (now : ℕ) (principal : Principal) (table : Tickets) (j : Text) (t : Ticket)
    → HasUniqueKeys table
    → Dict.get table j ≡ some t
    → is_stale now t ≡ false
    → owned_by principal.name t ≡ false
    → Dict.get (make_room now principal table) j ≡ some t
unfolding make_room
get-make_room now principal table j t u h live other =
    let kept : Dict.get (expire_tickets now table) j ≡ some t =
      get-expire_tickets now table j t u h ∙ (rw live) in
    get-evict _ (expire_tickets now table) _ j (
      has-keys_where (owned_by principal.name) (expire_tickets now table) j t
        (unfold expire_tickets in pop_all-HasUniqueKeys table _ u) kept
      ∙ other)
    ∙ kept

module _ (now later : ℕ) (fresh : Text) (principal : Principal) (table : Tickets) where
  -- Issuing a ticket keeps the keys unique, the table at 512 tickets or fewer and each principal at 16 or
  -- fewer, whether it succeeds or not.
  pub issue_ticket-IsBounded :
      IsBounded table → IsBounded (issue_ticket now later fresh principal table).0
  unfolding issue_ticket
  issue_ticket-IsBounded b = elim (Bool-cases (leb max_outstanding (length room))) [
    | inl e ↦ rw e roomy
    | inr e ↦ rw e (record {
      unique = put-HasUniqueKeys room fresh ticket roomy.unique;
      total = ground (arith, length-put room fresh ticket, e);
      each = λ name. per name;
    })
  ]
    where
      room : Tickets
      room = make_room now principal table

      ticket : Ticket
      ticket = record { owner = principal; expires = later + ticket_ttl }

      roomy : IsBounded room
      roomy = make_room-IsBounded now principal b

      per :
          (name : Text)
          → length (keys_where (owned_by name) (Dict.put room fresh ticket)) ≤ max_per_principal
      per name = elim (Bool-cases (text_eq principal.name name)) [
        | inl e ↦ rw (← eq_of_text_eq principal.name name e) (
            omega (
              arith,
              length-keys_where-put (owned_by principal.name) room fresh ticket,
              make_room-own now principal b,
            ))
        | inr e ↦ omega (
          arith,
          length-keys_where-put_ne (owned_by name) room fresh ticket (unfold owned_by in e),
          roomy.each name,
        )
      ]

  -- On a table whose keys occur once, issuing a ticket leaves a live ticket of a principal of another name
  -- as it is, if its token is not the one that is issued.
  pub issue_ticket-others :
      (j : Text) (t : Ticket)
      → HasUniqueKeys table
      → Dict.get table j ≡ some t
      → is_stale now t ≡ false
      → t.owner.name ≢ principal.name
      → j ≢ fresh
      → Dict.get (issue_ticket now later fresh principal table).0 j ≡ some t
  unfolding issue_ticket
  issue_ticket-others j t u h live other n = ground (
    arith,
    get-make_room now principal table j t u h live
        (unfold owned_by in ground (arith, eq_of_text_eq t.owner.name principal.name)),
    get-put (make_room now principal table) fresh j
        (record { owner = principal; expires = later + ticket_ttl }),
    eq_of_text_eq fresh j,
  )
