-- ===== src/Base/Sort.antt =====
-- Python's stable sort by a number, the largest first.
use Prim.Native.Nat.{ℕ, zero, suc, ◌≤◌}
use mathlib.Core.Path.{◌≡◌, refl, ap, ◌∙◌}
use mathlib.Core.Bool.{Bool, ◌||◌}
use mathlib.Core.List.{List, [], ◌∷◌}
use mathlib.Core.Logic.{inl, inr}
use native.Mathlib.Omega.{arith}
use reconkg.Base.Tests.{leb, ◌==◌, if◌then◌else◌, Bool-cases}
use reconkg.Base.Lists.{All, any, take}

module _ {A : Type 0} (weight : A → ℕ) where
  -- `sort(key=weight, reverse=True)`, which keeps equals in their order.
  unfoldable pub insert : A → List A → List A
  insert r [] = r ∷ []
  insert r (s ∷ rs) =
      let rest = insert r rs in if leb (weight s) (weight r) then r ∷ s ∷ rs else s ∷ rest

  unfoldable pub sort : List A → List A
  sort [] = []
  sort (r ∷ rs) = insert r (sort rs)

  -- Each has at least the priority of those behind it.
  abbrev pub IsOrdered : List A → Type 0
  IsOrdered [] = Unit
  IsOrdered (r ∷ rs) = All (λ s. weight s ≤ weight r) rs × IsOrdered rs

  abbrev pub at_weight : ℕ → List A → List A
  at_weight p [] = []
  at_weight p (r ∷ rs) = let rest = at_weight p rs in if weight r == p then r ∷ rest else rest

  All-insert : (P : A → Type 0) (r : A) (rs : List A) → P r → All P rs → All P (insert r rs)
  unfolding insert
  All-insert P r [] p h = (p, tt)
  All-insert P r (s ∷ rs) p (q, h) = elim (Bool-cases (leb (weight s) (weight r))) [
    | inl e ↦ rw e (p, (q, h))
    | inr e ↦ rw e (q, All-insert P r rs p h)
  ]

  pub All-sort : (P : A → Type 0) (rs : List A) → All P rs → All P (sort rs)
  unfolding sort
  All-sort P [] h = tt
  All-sort P (r ∷ rs) (p, h) = All-insert P r (sort rs) p (All-sort P rs h)

  weaken_bound :
      (m n : ℕ) (rs : List A) → m ≤ n → All (λ s. weight s ≤ m) rs → All (λ s. weight s ≤ n) rs
  weaken_bound m n [] l h = tt
  weaken_bound m n (s ∷ rs) l (p, h) = (omega arith, weaken_bound m n rs l h)

  insert-IsOrdered : (r : A) (rs : List A) → IsOrdered rs → IsOrdered (insert r rs)
  unfolding insert
  insert-IsOrdered r [] h = (tt, tt)
  insert-IsOrdered r (s ∷ rs) (p, h) = elim (Bool-cases (leb (weight s) (weight r))) [
    | inl e ↦
        let l : weight s ≤ weight r = ground (arith, e) in
        rw e ((l, weaken_bound (weight s) (weight r) rs l p), (p, h))
    | inr e ↦
        rw e (
          All-insert (λ t. weight t ≤ weight s) r rs (ground (arith, e)) p,
          insert-IsOrdered r rs h,
        )
  ]

  pub sort-IsOrdered : (rs : List A) → IsOrdered (sort rs)
  unfolding sort
  sort-IsOrdered [] = tt
  sort-IsOrdered (r ∷ rs) = insert-IsOrdered r (sort rs) (sort-IsOrdered rs)

  at_weight-insert :
      (p : ℕ) (r : A) (rs : List A) → at_weight p (insert r rs) ≡ at_weight p (r ∷ rs)
  unfolding insert
  at_weight-insert p r [] = refl
  at_weight-insert p r (s ∷ rs) = elim (Bool-cases (leb (weight s) (weight r))) [
    | inl e ↦ rw e refl
    | inr e ↦ rw (e, at_weight-insert p r rs) (ground (arith, e))
  ]

  pub at_weight-sort : (p : ℕ) (rs : List A) → at_weight p (sort rs) ≡ at_weight p rs
  unfolding sort
  at_weight-sort p [] = refl
  at_weight-sort p (r ∷ rs) =
      at_weight-insert p r (sort rs)
      ∙ ap (λ rest. if weight r == p then r ∷ rest else rest) (at_weight-sort p rs)

  any-insert : (f : A → Bool) (r : A) (rs : List A) → any f (insert r rs) ≡ (f r || any f rs)
  unfolding insert
  any-insert f r [] = refl
  any-insert f r (s ∷ rs) = elim (Bool-cases (leb (weight s) (weight r))) [
    | inl e ↦ rw e refl
    | inr e ↦ rw (e, any-insert f r rs) (ground arith)
  ]

  pub any-sort : (f : A → Bool) (rs : List A) → any f (sort rs) ≡ any f rs
  unfolding sort
  any-sort f [] = refl
  any-sort f (r ∷ rs) = any-insert f r (sort rs) ∙ ap (λ b. f r || b) (any-sort f rs)

  pub All-take : (P : A → Type 0) (n : ℕ) (rs : List A) → All P rs → All P (take n rs)
  All-take P zero rs h = tt
  All-take P (suc n) [] h = tt
  All-take P (suc n) (r ∷ rs) (p, h) = (p, All-take P n rs h)

  pub take-IsOrdered : (n : ℕ) (rs : List A) → IsOrdered rs → IsOrdered (take n rs)
  take-IsOrdered zero rs h = tt
  take-IsOrdered (suc n) [] h = tt
  take-IsOrdered (suc n) (r ∷ rs) (p, h) =
      (All-take (λ s. weight s ≤ weight r) n rs p, take-IsOrdered n rs h)
