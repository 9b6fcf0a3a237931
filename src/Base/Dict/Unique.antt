-- ===== src/Base/Dict/Unique.antt =====
-- Dictionaries whose keys occur once, as Python's do.
use reconkg.Base.Tests.{Bool-cases}
use reconkg.Base.Text.{Text, text_eq, eq_of_text_eq, text_eq_refl}
use reconkg.Base.Dict.{Dict, get, put, pop, get-put, get-pop}
use mathlib.Core.Path.{◌≡◌, refl}
use mathlib.Core.Logic.{inl, inr}
use mathlib.Core.Option.{none}
use mathlib.Core.List.{[], ◌∷◌}
use native.Mathlib.Omega.{arith}

module _ {ℓ} {V : Type ℓ} where
  abbrev pub HasUniqueKeys : Dict V → Type ℓ
  HasUniqueKeys [] = Unit
  HasUniqueKeys ((k, v) ∷ d) = (get d k ≡ none) × HasUniqueKeys d

  pub put-HasUniqueKeys :
      (d : Dict V) (k : Text) (v : V) → HasUniqueKeys d → HasUniqueKeys (put d k v)
  unfolding put
  put-HasUniqueKeys [] k v h = (unfold get in refl, tt)
  put-HasUniqueKeys ((j, w) ∷ d) k v (n, h) = elim (Bool-cases (text_eq j k)) [
    | inl e ↦ rw e (n, h)
    | inr e ↦ rw e (
      ground (arith, get-put d k j v, eq_of_text_eq k j, text_eq_refl j),
      put-HasUniqueKeys d k v h,
    )
  ]

  pub pop-HasUniqueKeys : (d : Dict V) (k : Text) → HasUniqueKeys d → HasUniqueKeys (pop d k)
  unfolding pop
  pop-HasUniqueKeys [] k h = tt
  pop-HasUniqueKeys ((j, w) ∷ d) k (n, h) = elim (Bool-cases (text_eq j k)) [
    | inl e ↦ rw e (pop-HasUniqueKeys d k h)
    | inr e ↦ rw e (ground (arith, get-pop d k j), pop-HasUniqueKeys d k h)
  ]
