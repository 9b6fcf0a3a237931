-- ===== src/RateLimit/Buckets.antt =====
-- The size of the table of buckets of reconkg/ratelimit.py.
use reconkg.Base.{
  ℕ, zero, suc, ◌/◌, ◌≤◌, ◌<◌, Bool, true, false, Option, none, some, [], ◌∷◌, leb, length, take,
  All, ◌≡◌, refl, ◌∙◌, ap, arith, Bool-cases, inl, inr,
}
use reconkg.Base.Text.{Text, text_eq, text_eq_refl}
use reconkg.Base.Dict
use reconkg.Base.Dict.{Dict, get-put, length-pop, length-put}
use reconkg.RateLimit.{
  Bucket, RateLimiter, insert_by_updated, sort_by_updated, half_or_one, pop_names, evict_half,
  with_bucket, bucket_for, new_bucket, take_tokens, check,
}

abbrev is_some {ℓ} : {A : Type ℓ} → Option A → Bool
is_some none = false
is_some (some a) = true

abbrev IsIn : Dict Bucket → Text × Bucket → Type 0
IsIn d entry = is_some (Dict.get d entry.0) ≡ true

length-pop_in :
    (d : Dict Bucket) (k : Text) → is_some (Dict.get d k) ≡ true → length (Dict.pop d k) < length d
unfolding Dict.pop Dict.get
length-pop_in [] k h = cc h
length-pop_in ((j, b) ∷ d) k h = elim (Bool-cases (text_eq j k)) [
  | inl e ↦ rw e (omega (arith, length-pop d k))
  | inr e ↦ rw e (omega (arith, length-pop_in d k (rw e at h)))
]

length-pop_names : (d rest : Dict Bucket) → length (pop_names d rest) ≤ length d
unfolding pop_names
length-pop_names d [] = omega arith
length-pop_names d ((k, b) ∷ rest) =
    omega (arith, length-pop_names (Dict.pop d k) rest, length-pop d k)

length-put_in :
    (d : Dict Bucket) (k : Text) (b : Bucket)
    → is_some (Dict.get d k) ≡ true
    → length (Dict.put d k b) ≡ length d
unfolding Dict.put Dict.get
length-put_in [] k b h = cc h
length-put_in ((j, c) ∷ d) k b h = elim (Bool-cases (text_eq j k)) [
  | inl e ↦ rw e refl
  | inr e ↦ rw e (ap suc (length-put_in d k b (rw e at h)))
]

IsIn-cons : (entry e : Text × Bucket) (d : Dict Bucket) → IsIn d e → IsIn (entry ∷ d) e
unfolding Dict.get
IsIn-cons (j, b) e d h = elim (Bool-cases (text_eq j e.0)) [ inl q ↦ rw q refl | inr q ↦ rw q h ]

All-IsIn_cons :
    (entry : Text × Bucket) (d es : Dict Bucket) → All (IsIn d) es → All (IsIn (entry ∷ d)) es
All-IsIn_cons entry d [] h = tt
All-IsIn_cons entry d (e ∷ es) (p, h) = (IsIn-cons entry e d p, All-IsIn_cons entry d es h)

IsIn-first : (entry : Text × Bucket) (d : Dict Bucket) → IsIn (entry ∷ d) entry
unfolding Dict.get
IsIn-first (j, b) d = rw (text_eq_refl j) refl

All-IsIn : (d : Dict Bucket) → All (IsIn d) d
All-IsIn [] = tt
All-IsIn (entry ∷ d) = (IsIn-first entry d, All-IsIn_cons entry d d (All-IsIn d))

All-insert_by_updated :
    (P : Text × Bucket → Type 0) (e : Text × Bucket) (d : Dict Bucket)
    → P e
    → All P d
    → All P (insert_by_updated e d)
unfolding insert_by_updated
All-insert_by_updated P e [] p h = (p, tt)
All-insert_by_updated P e (o ∷ d) p (q, h) = elim (Bool-cases (leb e.1.updated o.1.updated)) [
  | inl t ↦ rw t (p, (q, h))
  | inr t ↦ rw t (q, All-insert_by_updated P e d p h)
]

All-sort_by_updated :
    (P : Text × Bucket → Type 0) (d : Dict Bucket) → All P d → All P (sort_by_updated d)
unfolding sort_by_updated
All-sort_by_updated P [] h = tt
All-sort_by_updated P (e ∷ d) (p, h) =
    All-insert_by_updated P e (sort_by_updated d) p (All-sort_by_updated P d h)

length-insert_by_updated :
    (e : Text × Bucket) (d : Dict Bucket) → length (insert_by_updated e d) ≡ suc (length d)
unfolding insert_by_updated
length-insert_by_updated e [] = refl
length-insert_by_updated e (o ∷ d) = ground (arith, length-insert_by_updated e d)

length-sort_by_updated : (d : Dict Bucket) → length (sort_by_updated d) ≡ length d
unfolding sort_by_updated
length-sort_by_updated [] = refl
length-sort_by_updated (e ∷ d) =
    length-insert_by_updated e (sort_by_updated d) ∙ ap suc (length-sort_by_updated d)

half_or_one-suc : (n : ℕ) → (m : ℕ) × (half_or_one n ≡ suc m)
unfolding half_or_one
half_or_one-suc n = go (n / 2)
  where
    go : (q : ℕ) → (m : ℕ) × ((elim q [ zero ↦ 1 | suc k ↦ suc k ]) ≡ suc m)
    go zero = (0, refl)
    go (suc k) = (k, refl)

-- The eviction takes at least one bucket.
length-evict_half : (d : Dict Bucket) → 1 ≤ length d → length (evict_half d) < length d
unfolding evict_half
length-evict_half d h =
    let (m, e) = half_or_one-suc (length d) in
    rw e (
      go (sort_by_updated d) m (length-sort_by_updated d)
        (All-sort_by_updated (IsIn d) d (All-IsIn d)))
  where
    go :
        (s : Dict Bucket) (m : ℕ)
        → length s ≡ length d
        → All (IsIn d) s
        → length (pop_names d (take (suc m) s)) < length d
    go [] m l a = absurd (omega (arith, l, h))
    go ((k, b) ∷ s) m l (p, a) =
        unfold pop_names in
        omega (arith, length-pop_names (Dict.pop d k) (take m s), length-pop_in d k p)

-- The table after `with_bucket` holds the principal, within the bound.
with_bucket-bound :
    (now : ℕ) (principal : Text) (r : RateLimiter)
    → 1 ≤ r.max_principals
    → length r.buckets ≤ r.max_principals
    → (length (with_bucket now principal r).0 ≤ r.max_principals)
      × (is_some (Dict.get (with_bucket now principal r).0 principal) ≡ true)
unfolding with_bucket
with_bucket-bound now principal r pos h = go (Dict.get r.buckets principal) refl
  where
    fresh : Bucket
    fresh = new_bucket now r.capacity r.refill_per_second

    made :
        (room : Dict Bucket)
        → length room < r.max_principals
        → (length (Dict.put room principal fresh) ≤ r.max_principals)
          × (is_some (Dict.get (Dict.put room principal fresh) principal) ≡ true)
    made room k = (
      omega (arith, k, length-put room principal fresh),
      rw (get-put room principal principal fresh, text_eq_refl principal) refl,
    )

    go :
        (o : Option Bucket)
        → Dict.get r.buckets principal ≡ o
        → (length (bucket_for now principal r o).0 ≤ r.max_principals)
          × (is_some (Dict.get (bucket_for now principal r o).0 principal) ≡ true)
    go (some b) e = unfold bucket_for in (h, rw e refl)
    go none e =
        unfold bucket_for in
        elim (Bool-cases (leb r.max_principals (length r.buckets))) [
          | inl t ↦ rw t (
              made (evict_half r.buckets)
                (omega (arith, h, length-evict_half r.buckets (ground (arith, t, pos)))))
          | inr t ↦ rw t (made r.buckets (ground (arith, t)))
        ]

-- With room for one principal or more, charging a principal keeps the number of buckets within the bound,
-- whether it is allowed or not.
pub check-bound :
    (now later cost : ℕ) (principal : Text) (r : RateLimiter)
    → 1 ≤ r.max_principals
    → length r.buckets ≤ r.max_principals
    → length (check now later cost principal r).0.buckets ≤ r.max_principals
unfolding check
check-bound now later cost principal r pos h =
    let (bound, present) = with_bucket-bound now principal r pos h in
    rw
      (length-put_in (with_bucket now principal r).0 principal
        (take_tokens later cost (with_bucket now principal r).1).0 present)
      bound
