-- ===== src/Base/Dict.antt =====
-- Python's `dict` with text keys, in insertion order: `d.get(k)`, `d[k] = v`, `d.pop(k, None)`.
pub mod Unique
pub mod Every
use Prim.Native.Nat.{◌≤◌, ◌+◌}
use mathlib.Core.Path.{◌≡◌, refl}
use mathlib.Core.Option.{Option, none, some}
use mathlib.Core.List.{List, [], ◌∷◌}
use native.Mathlib.Omega.{arith}
use reconkg.Base.Tests.{if◌then◌else◌}
use reconkg.Base.Lists.{length}
use reconkg.Base.Text.{Text, text_eq, eq_of_text_eq, text_eq_refl}

abbrev pub Dict {ℓ} : Type ℓ → Type ℓ
Dict V = List (Text × V)

module _ {ℓ} {V : Type ℓ} where
  unfoldable pub get : Dict V → Text → Option V
  get [] k = none
  get ((j, v) ∷ d) k = if text_eq j k then some v else get d k

  unfoldable pub put : Dict V → Text → V → Dict V
  put [] k v = (k, v) ∷ []
  put ((j, w) ∷ d) k v = if text_eq j k then (j, v) ∷ d else (j, w) ∷ put d k v

  unfoldable pub pop : Dict V → Text → Dict V
  pop [] k = []
  pop ((j, w) ∷ d) k = let rest = pop d k in if text_eq j k then rest else (j, w) ∷ rest

  -- What a write shows at every key.
  pub get-put :
      (d : Dict V) (k j : Text) (v : V)
      → get (put d k v) j ≡ (if text_eq k j then some v else get d j)
  unfolding get put
  get-put [] k j v = refl
  get-put ((i, w) ∷ d) k j v = ground (
    arith,
    get-put d k j v,
    eq_of_text_eq i k,
    eq_of_text_eq i j,
    eq_of_text_eq k j,
    text_eq_refl j,
    text_eq_refl i,
    text_eq_refl k,
  )

  -- What a removal shows at every key.
  pub get-pop :
      (d : Dict V) (k j : Text) → get (pop d k) j ≡ (if text_eq k j then none else get d j)
  unfolding get pop
  get-pop [] k j = ground arith
  get-pop ((i, w) ∷ d) k j = ground (
    arith,
    get-pop d k j,
    eq_of_text_eq i k,
    eq_of_text_eq i j,
    eq_of_text_eq k j,
    text_eq_refl j,
    text_eq_refl i,
    text_eq_refl k,
  )

  pub length-pop : (d : Dict V) (k : Text) → length (pop d k) ≤ length d
  unfolding pop
  length-pop [] k = omega arith
  length-pop ((j, w) ∷ d) k = ground (arith, length-pop d k)

  pub length-put : (d : Dict V) (k : Text) (v : V) → length (put d k v) ≤ length d + 1
  unfolding put
  length-put [] k v = omega arith
  length-put ((j, w) ∷ d) k v = ground (arith, length-put d k v)

pub ruleset dict_laws = (get-put, get-pop)
