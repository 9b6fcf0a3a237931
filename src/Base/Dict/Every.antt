-- ===== src/Base/Dict/Every.antt =====
-- A predicate of every entry of a `dict`, through reads and writes.
use mathlib.Core.Path.{◌≡◌, sym, subst}
use mathlib.Core.Option.{some}
use mathlib.Core.List.{[], ◌∷◌}
use mathlib.Core.Logic.{inl, inr}
use native.Mathlib.Omega.{arith}
use reconkg.Base.Tests.{Bool-cases}
use reconkg.Base.Lists.{All}
use reconkg.Base.Text.{Text, text_eq, eq_of_text_eq}
use reconkg.Base.Dict.{Dict, get, put}

module _ {ℓ κ} {V : Type ℓ} (P : Text × V → Type κ) where
  pub All-get : (d : Dict V) (k : Text) (v : V) → All P d → get d k ≡ some v → P (k, v)
  unfolding get
  All-get [] k v h e = cc
  All-get ((j, w) ∷ d) k v (p, h) e = elim (Bool-cases (text_eq j k)) [
    | inl t ↦
        let same : w ≡ v = ground (arith, e, t) in
        subst (λ x. P (x, v)) (eq_of_text_eq j k t) (subst (λ x. P (j, x)) same p)
    | inr t ↦ All-get d k v h (ground (arith, e, t))
  ]

  pub All-put : (d : Dict V) (k : Text) (v : V) → All P d → P (k, v) → All P (put d k v)
  unfolding put
  All-put [] k v h q = (q, tt)
  All-put ((j, w) ∷ d) k v (p, h) q = elim (Bool-cases (text_eq j k)) [
    | inl t ↦ rw t (subst (λ x. P (x, v)) (sym (eq_of_text_eq j k t)) q, h)
    | inr t ↦ rw t (p, All-put d k v h q)
  ]
