-- ===== src/RateLimit/Bounds.antt =====
-- A bucket of reconkg/ratelimit.py over a run of charges.
use reconkg.Base.{
  ℕ, ◌+◌, ◌-◌, ◌*◌, ◌≤◌, Bool, List, [], ◌∷◌, if◌then◌else◌, ltb, ◌≡◌, refl, sym, ap, ◌∙◌, arith,
  Bool-cases, inl, inr,
}
use native.Mathlib.Nat.{add-mul}
use reconkg.RateLimit.{Bucket, capped, refilled, spend, take_tokens}

-- One charge: the reading of the clock and the cost.
pub record Charge : Type 0 where
  pub now : ℕ
  pub cost : ℕ

-- The units that are granted, and the bucket that is left.
unfoldable pub charge_all : List Charge → Bucket → ℕ × Bucket
charge_all [] b = (0, b)
charge_all (c ∷ cs) b =
    let (b', granted) = take_tokens c.now c.cost b in
    let (total, last) = charge_all cs b' in ((if granted then c.cost else 0) + total, last)

-- The readings do not go back, from a first one.
abbrev pub IsOrdered : ℕ → List Charge → Type 0
IsOrdered now [] = Unit
IsOrdered now (c ∷ cs) = (now ≤ c.now) × IsOrdered c.now cs

capped-le : (bound n : ℕ) → (capped bound n ≤ bound) × (capped bound n ≤ n)
unfolding capped
capped-le bound n = ground arith

abbrev grant : ℕ → Bool → ℕ
grant cost granted = if granted then cost else 0

spend-account :
    (cost : ℕ) (b : Bucket) → grant cost (spend cost b).1 + (spend cost b).0.tokens ≡ b.tokens
unfolding spend
spend-account cost b = elim (Bool-cases (ltb b.tokens cost)) [
  | inl e ↦ rw e (omega arith)
  | inr e ↦ rw e (ground (arith, e))
]

-- A charge keeps the capacity, the rate and the reading.
spend-fixed :
    (cost : ℕ) (b : Bucket)
    → ((spend cost b).0.capacity ≡ b.capacity)
      × ((spend cost b).0.refill_per_second ≡ b.refill_per_second)
      × ((spend cost b).0.updated ≡ b.updated)
unfolding spend
spend-fixed cost b = elim (Bool-cases (ltb b.tokens cost)) [
  | inl e ↦ rw e (refl, refl, refl)
  | inr e ↦ rw e (refl, refl, refl)
]

span_mul : (a b c r : ℕ) → a ≤ b → b ≤ c → (b - a) * r + (c - b) * r ≡ (c - a) * r
span_mul a b c r h k = sym (add-mul (b - a) (c - b) r) ∙ ap (λ x. x * r) (omega arith)

-- What a run grants and leaves comes from what was there and the refill; the bucket keeps its rate, and
-- its clock does not go back.
charge_all-account :
    (cs : List Charge) (b : Bucket)
    → IsOrdered b.updated cs
    → ((charge_all cs b).0 + (charge_all cs b).1.tokens
        ≤ b.tokens + ((charge_all cs b).1.updated - b.updated) * b.refill_per_second)
      × (b.updated ≤ (charge_all cs b).1.updated)
unfolding charge_all take_tokens
charge_all-account [] b h = (omega arith, omega arith)
charge_all-account (c ∷ cs) b (le, h) =
    go (spend-fixed c.cost (refilled c.now b)).1 (spend-fixed c.cost (refilled c.now b)).2
      (charge_all-account cs (spend c.cost (refilled c.now b)).0)
  where
    full : Bucket
    full = refilled c.now b

    left : Bucket
    left = (spend c.cost full).0

    last : Bucket
    last = (charge_all cs left).1

    rest : ℕ
    rest = (charge_all cs left).0

    go :
        left.refill_per_second ≡ full.refill_per_second
        → left.updated ≡ full.updated
        → (IsOrdered left.updated cs
            → (rest + last.tokens
                ≤ left.tokens + (last.updated - left.updated) * left.refill_per_second)
              × (left.updated ≤ last.updated))
        → (grant c.cost (spend c.cost full).1 + rest + last.tokens
            ≤ b.tokens + (last.updated - b.updated) * b.refill_per_second)
          × (b.updated ≤ last.updated)
    go rate time ih =
        let rate' : left.refill_per_second ≡ b.refill_per_second =
          rate ∙ (unfold refilled in refl) in
        let time' : left.updated ≡ c.now = time ∙ (unfold refilled in refl) in
        let (account, later) = ih (rw time' h) in
        let account' : rest + last.tokens
            ≤ left.tokens + (last.updated - c.now) * b.refill_per_second =
          rw (rate', time') at account in
        let later' : c.now ≤ last.updated = rw time' at later in
        let fill : full.tokens ≤ b.tokens + (c.now - b.updated) * b.refill_per_second =
          (unfold refilled in
            (capped-le b.capacity (b.tokens + (c.now - b.updated) * b.refill_per_second)).1) in
        (
          omega (
            arith,
            account',
            fill,
            spend-account c.cost full,
            span_mul b.updated c.now last.updated b.refill_per_second le later',
          ),
          omega (arith, le, later'),
        )

-- Over any run of charges whose readings of the clock do not go back, a bucket grants no more than the
-- tokens that it had and those that the time from its last reading to the last one refills.
pub charge_all-rate :
    (charges : List Charge) (b : Bucket)
    → IsOrdered b.updated charges
    → (charge_all charges b).0
      ≤ b.tokens + ((charge_all charges b).1.updated - b.updated) * b.refill_per_second
charge_all-rate charges b h = omega (arith, (charge_all-account charges b h).0)

-- After any charge a bucket holds at most its capacity, whatever it held.
pub take_tokens-bound : (now cost : ℕ) (b : Bucket) → (take_tokens now cost b).0.tokens ≤ b.capacity
unfolding take_tokens
take_tokens-bound now cost b =
    let fill : (refilled now b).tokens ≤ b.capacity =
      (unfold refilled in
        (capped-le b.capacity (b.tokens + (now - b.updated) * b.refill_per_second)).0) in
    omega (arith, fill, spend-account cost (refilled now b))
