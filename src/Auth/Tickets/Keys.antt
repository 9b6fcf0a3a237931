-- ===== src/Auth/Tickets/Keys.antt =====
-- The keys of the ticket table: what removing a list of them leaves, and lists within lists.
use reconkg.Base.{
  ◌≤◌, Bool, false, none, some, List, [], ◌∷◌, ◌≡◌, refl, arith, if◌then◌else◌, any, length,
  Bool-cases, inl, inr,
}
use reconkg.Base.Text.{Text, text_eq, eq_of_text_eq}
use reconkg.Base.Dict
use reconkg.Base.Dict.{get-pop}
use reconkg.Base.Dict.Unique.{HasUniqueKeys, pop-HasUniqueKeys}
use reconkg.Auth.Tickets.{Ticket, Tickets, keys_where, pop_all, remove}

-- `j in keys`.
abbrev pub has : Text → List Text → Bool
has j = any (λ k. text_eq k j)

pub get-pop_all :
    (d : Tickets) (ks : List Text) (j : Text)
    → Dict.get (pop_all d ks) j ≡ (if has j ks then none else Dict.get d j)
unfolding pop_all
get-pop_all d [] j = refl
get-pop_all d (k ∷ ks) j = ground (arith, get-pop_all (Dict.pop d k) ks j, get-pop d k j)

pub pop_all-HasUniqueKeys :
    (d : Tickets) (ks : List Text) → HasUniqueKeys d → HasUniqueKeys (pop_all d ks)
unfolding pop_all
pop_all-HasUniqueKeys d [] h = h
pop_all-HasUniqueKeys d (k ∷ ks) h =
    pop_all-HasUniqueKeys (Dict.pop d k) ks (pop-HasUniqueKeys d k h)

has-keys_where-none :
    (test : Ticket → Bool) (d : Tickets) (j : Text)
    → Dict.get d j ≡ none
    → has j (keys_where test d) ≡ false
unfolding keys_where Dict.get
has-keys_where-none test [] j h = refl
has-keys_where-none test ((k, t) ∷ d) j h = ground (arith, has-keys_where-none test d j)

-- A key that is there is listed exactly when its entry meets the test.
pub has-keys_where :
    (test : Ticket → Bool) (d : Tickets) (j : Text) (t : Ticket)
    → HasUniqueKeys d
    → Dict.get d j ≡ some t
    → has j (keys_where test d) ≡ test t
unfolding keys_where Dict.get
has-keys_where test [] j t u h = cc
has-keys_where test ((k, s) ∷ d) j t (n, u) h =
    ground (arith, has-keys_where test d j t u, eq_of_text_eq k j, has-keys_where-none test d j)

-- The first list is the second with some elements left out.
pub data Sub : List Text → List Text → Type 0 where
  done : Sub [] []
  keep : {xs ys : List Text} (x : Text) → Sub xs ys → Sub (x ∷ xs) (x ∷ ys)
  skip : {xs ys : List Text} (y : Text) → Sub xs ys → Sub xs (y ∷ ys)

pub Sub-refl : (xs : List Text) → Sub xs xs
Sub-refl [] = done
Sub-refl (x ∷ xs) = keep x (Sub-refl xs)

pub length-Sub : {xs ys : List Text} → Sub xs ys → length xs ≤ length ys
length-Sub done = omega arith
length-Sub (keep x s) = omega (arith, length-Sub s)
length-Sub (skip y s) = omega (arith, length-Sub s)

without : Text → List Text → List Text
without k [] = []
without k (j ∷ js) = let rest = without k js in if text_eq j k then rest else j ∷ rest

without-Sub : (k : Text) (xs : List Text) → Sub (without k xs) xs
unfolding without
without-Sub k [] = done
without-Sub k (x ∷ xs) = elim (Bool-cases (text_eq x k)) [
  | inl e ↦ rw e (skip x (without-Sub k xs))
  | inr e ↦ rw e (keep x (without-Sub k xs))
]

pub Sub-trans : {xs ys zs : List Text} → Sub xs ys → Sub ys zs → Sub xs zs
Sub-trans s done = s
Sub-trans (keep x s) (keep _ t) = keep x (Sub-trans s t)
Sub-trans (skip y s) (keep _ t) = skip y (Sub-trans s t)
Sub-trans s (skip z t) = skip z (Sub-trans s t)

Sub-without : (k : Text) {xs ys : List Text} → Sub xs ys → Sub (without k xs) (without k ys)
unfolding without
Sub-without k done = done
Sub-without k (keep x s) = elim (Bool-cases (text_eq x k)) [
  | inl e ↦ rw e (Sub-without k s)
  | inr e ↦ rw e (keep x (Sub-without k s))
]
Sub-without k (skip y s) = elim (Bool-cases (text_eq y k)) [
  | inl e ↦ rw e (Sub-without k s)
  | inr e ↦ rw e (skip y (Sub-without k s))
]

without-remove-Sub : (k : Text) (ys : List Text) → Sub (without k ys) (remove k ys)
unfolding without remove
without-remove-Sub k [] = done
without-remove-Sub k (y ∷ ys) = elim (Bool-cases (text_eq y k)) [
  | inl e ↦ rw e (without-Sub k ys)
  | inr e ↦ rw e (keep y (without-remove-Sub k ys))
]

keys_where-pop :
    (test : Ticket → Bool) (d : Tickets) (k : Text)
    → keys_where test (Dict.pop d k) ≡ without k (keys_where test d)
unfolding keys_where Dict.pop without
keys_where-pop test [] k = refl
keys_where-pop test ((j, t) ∷ d) k = ground (arith, keys_where-pop test d k)

-- Popping a key takes it from every list of keys that held those of the table.
pub keys_where-pop-Sub :
    (test : Ticket → Bool) (d : Tickets) (k : Text) {ys : List Text}
    → Sub (keys_where test d) ys
    → Sub (keys_where test (Dict.pop d k)) (remove k ys)
keys_where-pop-Sub test d k {ys} s =
    rw keys_where-pop (Sub-trans (Sub-without k s) (without-remove-Sub k ys))

pub keys_where-pop-Sub_self :
    (test : Ticket → Bool) (d : Tickets) (k : Text)
    → Sub (keys_where test (Dict.pop d k)) (keys_where test d)
keys_where-pop-Sub_self test d k = rw keys_where-pop (without-Sub k (keys_where test d))

pub keys_where-pop_all-Sub :
    (test : Ticket → Bool) (d : Tickets) (ks : List Text)
    → Sub (keys_where test (pop_all d ks)) (keys_where test d)
unfolding pop_all
keys_where-pop_all-Sub test d [] = Sub-refl (keys_where test d)
keys_where-pop_all-Sub test d (k ∷ ks) =
    Sub-trans (keys_where-pop_all-Sub test (Dict.pop d k) ks) (keys_where-pop-Sub_self test d k)
