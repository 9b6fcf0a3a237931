-- ===== src/Auth.antt =====
-- reconkg/auth.py: roles, principals and the resolution of a bearer token. Time is a number of
-- nanoseconds, and each reading of a clock is an argument.
pub mod Tickets
pub mod Access
pub mod Load
pub mod Scope
pub mod Address
pub mod Samples
mod Tests
use reconkg.Base.{
  ℕ, zero, suc, Bool, true, false, Option, none, some, List, [], ◌∷◌, if◌then◌else◌, leb, ltb,
  is_empty, drop, not, all, ◌&&◌,
}
use reconkg.Base.Text.{Text, codes, text_eq, lower, strip, starts_with}
use reconkg.Base.Dict.{Dict}

pub data Role : Type 0 where
  viewer scanner operator admin : Role

unfoldable pub level : Role → ℕ
level viewer = 0
level scanner = 1
level operator = 2
level admin = 3

unfoldable pub satisfies : Role → Role → Bool
unfolding level
satisfies role required = leb (level required) (level role)

pub record Principal : Type 0 where
  pub name : Text
  pub role : Role
  pub scope : List Text
  pub expires_at : Option ℕ

unfoldable pub is_expired : ℕ → Option ℕ → Bool
is_expired now none = false
is_expired now (some at) = leb at now

-- The messages of `AuthError`, for which the response's code is 401, and the `TypeError` that
-- `hmac.compare_digest` raises on a text outside ASCII: no handler catches it, and the code is 500.
pub data AuthError : Type 0 where
  missing_credential malformed_header invalid_credential credential_expired : AuthError
  missing_ticket invalid_ticket ticket_expired table_full type_error : AuthError

pub data Result {ℓ} (A : Type ℓ) : Type ℓ where
  ok : A → Result A
  err : AuthError → Result A

unfoldable pub is_ascii : Text → Bool
is_ascii = all (λ c. ltb c 128)

-- `hmac.compare_digest` of two texts, which compares ASCII ones only; nothing where it raises.
unfoldable pub compare_digest : Text → Text → Option Bool
compare_digest a b = if is_ascii a && is_ascii b then some (text_eq a b) else none

-- The loop of `resolve`: every entry is compared, and the last one that matches stays. Nothing where a
-- comparison raises.
unfoldable pub find_token : Text → Option Principal → Dict Principal → Option (Option Principal)
find_token token found [] = some found
find_token token found ((known, principal) ∷ rest) =
    let held = find_token token found rest in
    let taken = find_token token (some principal) rest in
    elim (compare_digest token known) [ none ↦ none | some same ↦ if same then taken else held ]

unfoldable pub check_expiry : ℕ → Option Principal → Result Principal
unfolding is_expired
check_expiry now none = err invalid_credential
check_expiry now (some p) = if is_expired now p.expires_at then err credential_expired else ok p

unfoldable pub after_loop : ℕ → Option (Option Principal) → Result Principal
after_loop now none = err type_error
after_loop now (some found) = check_expiry now found

-- `Authenticator.resolve`.
unfoldable pub resolve : Dict Principal → ℕ → Option Text → Result Principal
resolve principals now none = err missing_credential
resolve principals now (some token) =
    if is_empty token
    then err missing_credential
    else after_loop now (find_token token none principals)

-- `Authenticator.from_header`.
unfoldable pub from_header : Dict Principal → ℕ → Option Text → Result Principal
from_header principals now none = err missing_credential
from_header principals now (some header) =
    if is_empty header
    then err missing_credential
    else if starts_with (codes "bearer ") (lower header)
    then resolve principals now (some (strip (drop 7 header)))
    else err malformed_header

-- The answers of the dependencies: the principal, or the code of the response.
pub data Answer : Type 0 where
  granted : Principal → Answer
  denied : ℕ → Answer

unfoldable pub require_principal : Dict Principal → ℕ → Option Text → Result Principal
require_principal principals now header = from_header principals now header

unfoldable pub status : AuthError → ℕ
status type_error = 500
status _ = 401

unfoldable pub check_role : Role → Result Principal → Answer
unfolding satisfies status
check_role required (err e) = denied (status e)
check_role required (ok p) = if satisfies p.role required then granted p else denied 403

-- The dependency that `require_role` makes.
unfoldable pub require_role : Role → Dict Principal → ℕ → Option Text → Answer
require_role required principals now header =
    check_role required (require_principal principals now header)
