-- ===== src/Auth/Tickets/Redeem.antt =====
-- reconkg/auth.py: `redeem_ticket`, alone and after `issue_ticket`.
use reconkg.Base.{
  ℕ, ◌+◌, ◌≤◌, true, false, Option, none, some, ◌≡◌, ◌↔◌, refl, ◌∙◌, arith, is_empty, Bool-cases,
  Option-cases, inl, inr,
}
use reconkg.Base.Text.{Text, text_eq_refl}
use reconkg.Base.Dict
use reconkg.Base.Dict.{get-put, get-pop, length-pop}
use reconkg.Base.Dict.Unique.{HasUniqueKeys, pop-HasUniqueKeys}
use reconkg.Auth.{Principal, ok, err, invalid_ticket}
use reconkg.Auth.Tickets.{
  Ticket, Tickets, keys_where, is_stale, expire_tickets, owned_by, issue_ticket, make_room,
  redeem_ticket, redeem_live, check_ticket, ticket_ttl,
}
use reconkg.Auth.Tickets.Keys.{get-pop_all, length-Sub, keys_where-pop-Sub_self}
use reconkg.Auth.Tickets.Issue.{
  IsBounded, get-expire_tickets, expire_tickets-IsBounded, issue_ticket-IsBounded,
}

pop-IsBounded : (table : Tickets) (k : Text) → IsBounded table → IsBounded (Dict.pop table k)
pop-IsBounded table k b = record {
  unique = pop-HasUniqueKeys table k b.unique;
  total = omega (arith, length-pop table k, b.total);
  each = λ name.
      omega (arith, length-Sub (keys_where-pop-Sub_self (owned_by name) table k), b.each name);
}

redeem_live-IsBounded :
    (later : ℕ) (ticket : Option Text) (live : Tickets)
    → IsBounded live
    → IsBounded (redeem_live later ticket live).0
unfolding redeem_live
redeem_live-IsBounded later none live b = b
redeem_live-IsBounded later (some k) live b = elim (Bool-cases (is_empty k)) [
  | inl e ↦ rw e b
  | inr e ↦ rw e (pop-IsBounded live k b)
]

-- Redeeming keeps both caps and the keys unique, on every branch.
pub redeem_ticket-IsBounded :
    (now later : ℕ) (ticket : Option Text) (table : Tickets)
    → IsBounded table
    → IsBounded (redeem_ticket now later ticket table).0
unfolding redeem_ticket
redeem_ticket-IsBounded now later ticket table b =
    redeem_live-IsBounded later ticket (expire_tickets now table)
      (expire_tickets-IsBounded now table b)

get-expire_tickets-none :
    (now : ℕ) (table : Tickets) (k : Text)
    → Dict.get table k ≡ none
    → Dict.get (expire_tickets now table) k ≡ none
unfolding expire_tickets
get-expire_tickets-none now table k h =
    ground (arith, get-pop_all table (keys_where (is_stale now) table) k)

-- Whatever the redemption of a non-empty ticket answers, redeeming it again on the table it leaves is
-- refused as invalid, whatever the clocks read.
pub redeem_ticket_once :
    (now later now' later' : ℕ) (ticket : Text) (table : Tickets)
    → is_empty ticket ≡ false
    → (redeem_ticket now' later' (some ticket) (redeem_ticket now later (some ticket) table).0).1
      ≡ err invalid_ticket
redeem_ticket_once now later now' later' ticket table h =
    second (redeem_ticket now later (some ticket) table).0 gone
  where
    gone : Dict.get (redeem_ticket now later (some ticket) table).0 ticket ≡ none
    gone =
        unfold redeem_ticket redeem_live in
        rw h (get-pop (expire_tickets now table) ticket ticket ∙ (rw text_eq_refl))

    second :
        (t : Tickets)
        → Dict.get t ticket ≡ none
        → (redeem_ticket now' later' (some ticket) t).1 ≡ err invalid_ticket
    second t g =
        unfold redeem_ticket redeem_live check_ticket in
        rw (h, get-expire_tickets-none now' t ticket g)

-- A redemption succeeds exactly for the owner of a ticket of the table that has not expired.
abbrev pub IsGood : Tickets → Text → ℕ → Principal → Type 0
IsGood table ticket later p =
    (t : Ticket) × (Dict.get table ticket ≡ some t) × (t.owner ≡ p) × (later ≤ t.expires)

check_ticket_iff :
    (later : ℕ) (o : Option Ticket) (p : Principal)
    → (check_ticket later o ≡ ok p)
      ↔ ((t : Ticket) × (o ≡ some t) × (t.owner ≡ p) × (later ≤ t.expires))
check_ticket_iff later none p = (λ h. unfold check_ticket in cc, λ g. cc g.1)
check_ticket_iff later (some t) p = (to, from)
  where
    to :
        check_ticket later (some t) ≡ ok p
        → (s : Ticket) × (some t ≡ some s) × (s.owner ≡ p) × (later ≤ s.expires)
    to h = unfold check_ticket in (t, refl, ground arith, ground arith)

    from :
        (s : Ticket) × (some t ≡ some s) × (s.owner ≡ p) × (later ≤ s.expires)
        → check_ticket later (some t) ≡ ok p
    from (s, e, o, l) = unfold check_ticket in ground arith

redeem_ticket_answer :
    (now later : ℕ) (ticket : Text) (table : Tickets)
    → is_empty ticket ≡ false
    → (redeem_ticket now later (some ticket) table).1
      ≡ check_ticket later (Dict.get (expire_tickets now table) ticket)
unfolding redeem_ticket redeem_live
redeem_ticket_answer now later ticket table h = rw h

-- What expires at the first reading of the clock is past its time at the second.
check_ticket_stale :
    (now later : ℕ) (t : Ticket)
    → now ≤ later
    → is_stale now t ≡ true
    → (p : Principal) → check_ticket later (some t) ≡ ok p
    → ⊥
unfolding check_ticket is_stale
check_ticket_stale now later t le s p h = ground arith

get_live :
    (now later : ℕ) (table : Tickets) (ticket : Text) (p : Principal)
    → HasUniqueKeys table
    → now ≤ later
    → (check_ticket later (Dict.get (expire_tickets now table) ticket) ≡ ok p)
      ↔ (check_ticket later (Dict.get table ticket) ≡ ok p)
get_live now later table ticket p u le = elim (Option-cases (Dict.get table ticket)) [
  | inl e ↦ rw (e, get-expire_tickets-none now table ticket e) (λ h. h, λ h. h)
  | inr (t, e) ↦ elim (Bool-cases (is_stale now t)) [
    | inl s ↦
        rw (get-expire_tickets now table ticket t u e, s, e)
          (λ h. unfold check_ticket in cc, λ h. absurd (check_ticket_stale now later t le s p h))
    | inr s ↦ rw (get-expire_tickets now table ticket t u e, s, e) (λ h. h, λ h. h)
  ]
]

-- On a table whose keys occur once, with a clock that does not go back, a non-empty ticket is redeemed
-- for a principal exactly when the table holds it for that principal and the second reading of the
-- clock is not past its expiry.
pub redeem_ticket_iff :
    (now later : ℕ) (ticket : Text) (table : Tickets) (p : Principal)
    → HasUniqueKeys table
    → is_empty ticket ≡ false
    → now ≤ later
    → ((redeem_ticket now later (some ticket) table).1 ≡ ok p) ↔ IsGood table ticket later p
redeem_ticket_iff now later ticket table p u h le =
    rw (redeem_ticket_answer now later ticket table h) (
      λ e.
          (check_ticket_iff later (Dict.get table ticket) p).0
            ((get_live now later table ticket p u le).0 e),
      λ g.
          (get_live now later table ticket p u le).1
            ((check_ticket_iff later (Dict.get table ticket) p).1 g),
    )

issue_ticket-get :
    (now later : ℕ) (fresh : Text) (principal : Principal) (table : Tickets)
    → (issue_ticket now later fresh principal table).1 ≡ ok fresh
    → Dict.get (issue_ticket now later fresh principal table).0 fresh
      ≡ some (record { owner = principal; expires = later + ticket_ttl })
unfolding issue_ticket
issue_ticket-get now later fresh principal table h = ground (
  arith,
  get-put (make_room now principal table) fresh fresh
      (record { owner = principal; expires = later + ticket_ttl }),
  text_eq_refl fresh,
)

-- From a table within both caps, a non-empty ticket that was issued is redeemed for its principal: on the
-- table that issuing leaves, by any redemption whose second reading of the clock is not before its first
-- and at most a minute after the issue.
pub redeem-issue_ticket :
    (now later now' later' : ℕ) (fresh : Text) (principal : Principal) (table : Tickets)
    → IsBounded table
    → is_empty fresh ≡ false
    → (issue_ticket now later fresh principal table).1 ≡ ok fresh
    → now' ≤ later'
    → later' ≤ later + ticket_ttl
    → (redeem_ticket now' later' (some fresh) (issue_ticket now later fresh principal table).0).1
      ≡ ok principal
redeem-issue_ticket now later now' later' fresh principal table b h issued le soon =
    (redeem_ticket_iff now' later' fresh _ principal
        (issue_ticket-IsBounded now later fresh principal table b).unique h le).1
      (_, issue_ticket-get now later fresh principal table issued, refl, soon)
