-- ===== src/Auth/Load.antt =====
-- reconkg/auth.py: `load_principals`. `strptime` is the parameter `parse_date`, which gives the instant
-- of a date, or nothing where it raises; the text is the argument or the environment's.
pub mod Table
use reconkg.Base.{
  ℕ, Bool, true, false, ◌||◌, not, Option, none, some, List, [], ◌∷◌, map, if◌then◌else◌, ◌==◌, ltb,
  is_empty, any, length,
}
use reconkg.Base.Text.{Text, codes, text_eq, lower, strip}
use reconkg.Base.Dict
use reconkg.Base.Dict.{Dict}
use reconkg.Auth.{Role, viewer, scanner, operator, admin, Principal}

-- The messages of `AuthError` here.
pub data LoadError : Type 0 where
  unset malformed_entry unknown_role bad_expiry short_token duplicate_token : LoadError

pub data Loaded {ℓ} (A : Type ℓ) : Type ℓ where
  loaded : A → Loaded A
  refused : LoadError → Loaded A

infixl 5 ◌>>=◌
abbrev pub ◌>>=◌ {ℓ κ} : {A : Type ℓ} {B : Type κ} → Loaded A → (A → Loaded B) → Loaded B
loaded value >>= next = next value
refused reason >>= next = refused reason

abbrev pub min_token_len : ℕ
min_token_len = 16

unfoldable pub onto_first : ℕ → List Text → List Text
onto_first c [] = (c ∷ []) ∷ []
onto_first c (part ∷ parts) = (c ∷ part) ∷ parts

-- `text.split(separator)` for one character.
unfoldable pub split_on : ℕ → Text → List Text
unfolding onto_first
split_on separator [] = [] ∷ []
split_on separator (c ∷ s) =
    let rest = split_on separator s in if c == separator then [] ∷ rest else onto_first c rest

-- `rpartition("@")`: the texts around the last `@`.
unfoldable pub last_at : Text → Option (Text × Text)
last_at [] = none
last_at (c ∷ s) = elim (last_at s) [
  | some (before, after) ↦ some (c ∷ before, after)
  | none ↦ if c == b'@' then some ([], s) else none
]

unfoldable pub find_role : Text → Loaded Role
find_role text =
    if text_eq text (codes "viewer")
    then loaded viewer
    else if text_eq text (codes "scanner")
    then loaded scanner
    else if text_eq text (codes "operator")
    then loaded operator
    else if text_eq text (codes "admin")
    then loaded admin
    else refused unknown_role

unfoldable pub drop_empty : List Text → List Text
drop_empty [] = []
drop_empty ([] ∷ parts) = drop_empty parts
drop_empty ((c ∷ part) ∷ parts) = (c ∷ part) ∷ drop_empty parts

unfoldable pub scope_of : Text → List Text
unfolding drop_empty
scope_of spec = drop_empty (map strip (split_on b';' spec))

unfoldable pub admit : Text × Principal → Dict Principal → Loaded (Dict Principal)
admit (token, principal) principals =
    if is_empty principal.name || ltb (length token) min_token_len
    then refused short_token
    else elim (Dict.get principals token) [
      | some other ↦ refused duplicate_token
      | none ↦ loaded (Dict.put principals token principal)
    ]

module _ (parse_date : Text → Option ℕ) where
  unfoldable pub expiring : Text → Option (Text × Text) → Loaded (List Text × Option ℕ)
  expiring spec none = loaded (scope_of spec, none)
  expiring spec (some (before, after)) = elim (parse_date (strip after)) [
    | none ↦ refused bad_expiry
    | some at ↦ loaded (scope_of before, some at)
  ]

  -- The fourth field: a scope, with an optional expiry behind the last `@`.
  unfoldable pub parse_spec : Text → Loaded (List Text × Option ℕ)
  parse_spec [] = loaded ([], none)
  parse_spec (c ∷ spec) = expiring (c ∷ spec) (last_at (c ∷ spec))

  unfoldable pub parse_fields : List Text → Loaded (Text × Principal)
  parse_fields (name ∷ token ∷ []) =
      loaded (token, record { name = name; role = operator; scope = []; expires_at = none })
  parse_fields (name ∷ role_raw ∷ token ∷ []) = do
    role ← find_role (lower role_raw)
    loaded (token, record { name = name; role = role; scope = []; expires_at = none })
  parse_fields (name ∷ role_raw ∷ token ∷ spec ∷ []) = do
    role ← find_role (lower role_raw)
    limits ← parse_spec spec
    loaded (token, record { name = name; role = role; scope = limits.0; expires_at = limits.1 })
  parse_fields _ = refused malformed_entry

  unfoldable pub parse_entry : Text → Loaded (Text × Principal)
  parse_entry entry =
      let text = strip entry in
      if is_empty text || not (any (λ c. c == b':') text)
      then refused malformed_entry
      else parse_fields (map strip (split_on b':' text))

  unfoldable pub load_entries : List Text → Dict Principal → Loaded (Dict Principal)
  load_entries [] principals = loaded principals
  load_entries (entry ∷ entries) principals = do
    parsed ← parse_entry entry
    table ← admit parsed principals
    load_entries entries table

  unfoldable pub load_principals : Text → Loaded (Dict Principal)
  load_principals raw =
      if is_empty (strip raw) then refused unset else load_entries (split_on b',' raw) []
