-- ===== src/Auth/Tickets/Issue/Evict.antt =====
-- reconkg/auth.py: the eviction loop of `issue_ticket`.
use reconkg.Base.{
  ℕ, zero, suc, ◌≤◌, ◌<◌, Bool, true, false, List, [], ◌∷◌, ◌≡◌, refl, ◌∙◌, arith, if◌then◌else◌,
  length, leb, ltb, Bool-cases, inl, inr,
}
use reconkg.Base.Text.{Text, text_eq, eq_of_text_eq, text_eq_refl}
use reconkg.Base.Dict
use reconkg.Base.Dict.{get-pop, length-pop}
use reconkg.Base.Dict.Unique.{HasUniqueKeys, pop-HasUniqueKeys}
use reconkg.Auth.Tickets.{
  Ticket, Tickets, keys_where, pop_all, expiry_of, oldest_from, remove, evict, max_per_principal,
}
use reconkg.Auth.Tickets.Keys.{
  has, Sub, Sub-refl, Sub-trans, length-Sub, keys_where-pop-Sub, keys_where-pop-Sub_self,
}

pub length-pop_all : (d : Tickets) (ks : List Text) → length (pop_all d ks) ≤ length d
unfolding pop_all
length-pop_all d [] = omega arith
length-pop_all d (k ∷ ks) = omega (arith, length-pop_all (Dict.pop d k) ks, length-pop d k)

has-oldest_from :
    (d : Tickets) (best : Text) (ks : List Text) → has (oldest_from d best ks) (best ∷ ks) ≡ true
unfolding oldest_from
has-oldest_from d best [] = ground (arith, text_eq_refl best)
has-oldest_from d best (k ∷ ks) =
    step (ltb (expiry_of d k) (expiry_of d best))
      (has-oldest_from d (if ltb (expiry_of d k) (expiry_of d best) then k else best) ks)
  where
    step :
        (b : Bool)
        → has (oldest_from d (if b then k else best) ks) ((if b then k else best) ∷ ks) ≡ true
        → has (oldest_from d (if b then k else best) ks) (best ∷ k ∷ ks) ≡ true
    step true h = ground arith
    step false h = ground arith

length-remove :
    (k : Text) (ks : List Text) → has k ks ≡ true → suc (length (remove k ks)) ≡ length ks
unfolding remove
length-remove k [] h = cc
length-remove k (j ∷ js) h = ground (arith, length-remove k js)

has-remove : (j k : Text) (ks : List Text) → has j ks ≡ false → has j (remove k ks) ≡ false
unfolding remove
has-remove j k [] h = refl
has-remove j k (i ∷ is) h = ground (arith, has-remove j k is)

text_ne_of_has :
    (j k : Text) (ks : List Text) → has j ks ≡ false → has k ks ≡ true → text_eq k j ≡ false
text_ne_of_has j k [] h e = cc
text_ne_of_has j k (i ∷ is) h e =
    ground (arith, text_ne_of_has j k is, eq_of_text_eq i k, eq_of_text_eq k j, text_eq_refl j)

-- A key that is not listed keeps its entry.
pub get-evict :
    (fuel : ℕ) (d : Tickets) (mine : List Text) (j : Text)
    → has j mine ≡ false
    → Dict.get (evict fuel d mine) j ≡ Dict.get d j
unfolding evict
get-evict zero d mine j h = refl
get-evict (suc fuel) d [] j h = refl
get-evict (suc fuel) d (k ∷ ks) j h =
    let oldest : Text = oldest_from d k ks in
    let other : text_eq oldest j ≡ false =
      text_ne_of_has j oldest (k ∷ ks) h (has-oldest_from d k ks) in
    elim (Bool-cases (leb max_per_principal (length (k ∷ ks)))) [
      | inl e ↦ rw e (
          get-evict fuel (Dict.pop d oldest) (remove oldest (k ∷ ks)) j
            (has-remove j oldest (k ∷ ks) h)
          ∙ get-pop d oldest j
          ∙ (rw other))
      | inr e ↦ rw e
    ]

-- With as much fuel as there are keys, and all keys of the test among them, the loop leaves fewer
-- than the cap.
pub evict-count :
    (fuel : ℕ) (test : Ticket → Bool) (d : Tickets) (mine : List Text)
    → Sub (keys_where test d) mine
    → length mine ≤ fuel
    → length (keys_where test (evict fuel d mine)) < max_per_principal
unfolding evict
evict-count zero test d [] s h = omega (arith, length-Sub s)
evict-count zero test d (k ∷ ks) s h = absurd (omega arith)
evict-count (suc fuel) test d [] s h = omega (arith, length-Sub s)
evict-count (suc fuel) test d (k ∷ ks) s h =
    let oldest : Text = oldest_from d k ks in
    let shorter : suc (length (remove oldest (k ∷ ks))) ≡ length (k ∷ ks) =
      length-remove oldest (k ∷ ks) (has-oldest_from d k ks) in
    elim (Bool-cases (leb max_per_principal (length (k ∷ ks)))) [
      | inl e ↦ rw e (
          evict-count fuel test (Dict.pop d oldest) (remove oldest (k ∷ ks))
            (keys_where-pop-Sub test d oldest s) (omega arith))
      | inr e ↦ rw e (below _ e (length-Sub s))
    ]
  where
    below :
        (m : ℕ)
        → leb max_per_principal (length (k ∷ ks)) ≡ false
        → m ≤ length (k ∷ ks)
        → m < max_per_principal
    below m e l = ground arith

pub evict-Sub :
    (fuel : ℕ) (test : Ticket → Bool) (d : Tickets) (mine : List Text)
    → Sub (keys_where test (evict fuel d mine)) (keys_where test d)
unfolding evict
evict-Sub zero test d mine = Sub-refl (keys_where test d)
evict-Sub (suc fuel) test d [] = Sub-refl (keys_where test d)
evict-Sub (suc fuel) test d (k ∷ ks) = elim (Bool-cases (leb max_per_principal (length (k ∷ ks)))) [
  | inl e ↦
      rw e
        (Sub-trans (evict-Sub fuel test _ _) (keys_where-pop-Sub_self test d (oldest_from d k ks)))
  | inr e ↦ rw e (Sub-refl (keys_where test d))
]

pub length-evict :
    (fuel : ℕ) (d : Tickets) (mine : List Text) → length (evict fuel d mine) ≤ length d
unfolding evict
length-evict zero d mine = omega arith
length-evict (suc fuel) d [] = omega arith
length-evict (suc fuel) d (k ∷ ks) = ground (
  arith,
  length-evict fuel (Dict.pop d (oldest_from d k ks)) (remove (oldest_from d k ks) (k ∷ ks)),
  length-pop d (oldest_from d k ks),
)

pub evict-HasUniqueKeys :
    (fuel : ℕ) (d : Tickets) (mine : List Text)
    → HasUniqueKeys d
    → HasUniqueKeys (evict fuel d mine)
unfolding evict
evict-HasUniqueKeys zero d mine h = h
evict-HasUniqueKeys (suc fuel) d [] h = h
evict-HasUniqueKeys (suc fuel) d (k ∷ ks) h =
    elim (Bool-cases (leb max_per_principal (length (k ∷ ks)))) [
      | inl e ↦ rw e (evict-HasUniqueKeys fuel _ _ (pop-HasUniqueKeys d (oldest_from d k ks) h))
      | inr e ↦ rw e h
    ]
