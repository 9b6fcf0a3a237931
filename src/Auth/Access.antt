-- ===== src/Auth/Access.antt =====
-- reconkg/auth.py: who gets past `resolve`, `from_header` and `require_role`.
use reconkg.Base.{
  ℕ, ◌≤◌, ◌<◌, true, false, Option, none, some, [], ◌∷◌, ◌≡◌, ◌↔◌, refl, sym, ◌∙◌, All, ◌&&◌,
  and_true, ◌⊎◌, arith, is_empty, drop, Bool-cases, inl, inr,
}
use reconkg.Base.Text.{Text, codes, text_eq, eq_of_text_eq, text_eq_comm, lower, strip, starts_with}
use reconkg.Base.Dict
use reconkg.Base.Dict.{Dict}
use reconkg.Base.Dict.Unique.{HasUniqueKeys}
use reconkg.Auth.{
  Role, level, satisfies, Principal, is_expired, malformed_header, Result, ok, err, find_token,
  check_expiry, resolve, is_ascii, compare_digest, after_loop, status, type_error, from_header,
  granted, denied, require_principal, check_role, require_role,
}

abbrev or_else : Option Principal → Option Principal → Option Principal
or_else found none = found
or_else found (some p) = some p

none-or_else : (o : Option Principal) → or_else none o ≡ o
none-or_else none = refl
none-or_else (some p) = refl

abbrev pub AsciiTokens : Dict Principal → Type 0
AsciiTokens = All (λ (known, p). is_ascii known ≡ true)

-- The loop comes to its end if all that it compares is ASCII.
find_token-eq :
    (token : Text) (found : Option Principal) (d : Dict Principal)
    → is_ascii token ≡ true
    → AsciiTokens d
    → HasUniqueKeys d
    → find_token token found d ≡ some (or_else found (Dict.get d token))
unfolding find_token Dict.get compare_digest
find_token-eq token found [] a all_of u = refl
find_token-eq token found ((known, p) ∷ d) a (b, all_of) (n, u) =
    elim (Bool-cases (text_eq known token)) [
      | inl e ↦
          rw (find_token, compare_digest, a, b, text_eq_comm token known, e)
            (find_token-eq token (some p) d a all_of u
              ∙ (rw (← eq_of_text_eq known token e, n) refl))
      | inr e ↦
          rw (find_token, compare_digest, a, b, text_eq_comm token known, e)
            (find_token-eq token found d a all_of u)
    ]

-- A loop that comes to its end at a token of the table compared ASCII texts only.
find_token-ascii :
    (token : Text) (found out : Option Principal) (d : Dict Principal)
    → find_token token found d ≡ some out
    → AsciiTokens d × ((d ≡ []) ⊎ (is_ascii token ≡ true))
unfolding find_token compare_digest
find_token-ascii token found out [] h = (tt, inl refl)
find_token-ascii token found out ((known, p) ∷ d) h =
    elim (Bool-cases (is_ascii token && is_ascii known)) [
      | inr e ↦ absurd (ground (arith, h, e))
      | inl e ↦
          let (a, b) = and_true (is_ascii token) (is_ascii known) e in
          elim (Bool-cases (text_eq token known)) [
            | inl t ↦
                ((b, (find_token-ascii token (some p) out d (ground (arith, h, e, t))).0), inr a)
            | inr t ↦ ((b, (find_token-ascii token found out d (ground (arith, h, e, t))).0), inr a)
          ]
    ]

check_expiry_iff :
    (now : ℕ) (o : Option Principal) (p : Principal)
    → (check_expiry now o ≡ ok p) ↔ ((o ≡ some p) × (is_expired now p.expires_at ≡ false))
check_expiry_iff now none p = (λ h. unfold check_expiry in cc, λ h. cc h.0)
check_expiry_iff now (some q) p = (
  λ h. unfold check_expiry in (ground arith, ground arith),
  λ h. unfold check_expiry in ground arith,
)

check_role_granted :
    (required : Role) (r : Result Principal) (p : Principal)
    → check_role required r ≡ granted p
    → (r ≡ ok p) × (level required ≤ level p.role)
unfolding check_role satisfies status
check_role_granted required (ok q) p h = (ground arith, ground arith)
check_role_granted required (err e) p h = cc

check_role_enough :
    (required : Role) (p : Principal)
    → level required ≤ level p.role
    → check_role required (ok p) ≡ granted p
unfolding check_role satisfies
check_role_enough required p h = ground arith

check_role_forbidden :
    (required : Role) (r : Result Principal)
    → check_role required r ≡ denied 403
    → (p : Principal) × (r ≡ ok p) × (level p.role < level required)
unfolding check_role satisfies status
check_role_forbidden required (ok q) h = (q, refl, ground arith)
check_role_forbidden required (err type_error) h = ground arith
check_role_forbidden required (err e) h = ground arith

check_role_low :
    (required : Role) (p : Principal)
    → level p.role < level required
    → check_role required (ok p) ≡ denied 403
unfolding check_role satisfies
check_role_low required p h = ground arith

-- What a token has to be, to stand for a principal: ASCII, as all tokens of the table.
abbrev pub Identifies : Dict Principal → ℕ → Text → Principal → Type 0
Identifies principals now token p =
    (is_empty token ≡ false)
    × (is_ascii token ≡ true)
    × AsciiTokens principals
    × (Dict.get principals token ≡ some p)
    × (is_expired now p.expires_at ≡ false)

-- What a header has to be: a bearer token of the principal.
abbrev pub Carries : Dict Principal → ℕ → Option Text → Principal → Type 0
Carries principals now none p = ⊥
Carries principals now (some header) p =
    (starts_with (codes "bearer ") (lower header) ≡ true)
    × Identifies principals now (strip (drop 7 header)) p

from_header_bearer :
    (principals : Dict Principal) (now : ℕ) (header : Text)
    → is_empty header ≡ false
    → starts_with (codes "bearer ") (lower header) ≡ true
    → from_header principals now (some header)
      ≡ resolve principals now (some (strip (drop 7 header)))
unfolding from_header
from_header_bearer principals now header h e = rw (h, e)

from_header_other :
    (principals : Dict Principal) (now : ℕ) (header : Text)
    → is_empty header ≡ false
    → starts_with (codes "bearer ") (lower header) ≡ false
    → from_header principals now (some header) ≡ err malformed_header
unfolding from_header
from_header_other principals now header h e = rw (h, e)

module _ (principals : Dict Principal) (now : ℕ) (u : HasUniqueKeys principals) where
  resolve_empty :
      (token : Text) (p : Principal)
      → is_empty token ≡ true
      → resolve principals now (some token) ≡ ok p
      → ⊥
  unfolding resolve
  resolve_empty token p e h = ground arith

  resolve_full :
      (token : Text)
      → is_empty token ≡ false
      → resolve principals now (some token) ≡ after_loop now (find_token token none principals)
  unfolding resolve
  resolve_full token e = rw e refl

  looked_up :
      (token : Text)
      → is_ascii token ≡ true
      → AsciiTokens principals
      → after_loop now (find_token token none principals)
        ≡ check_expiry now (Dict.get principals token)
  unfolding after_loop
  looked_up token a all_of =
      rw (find_token-eq token none principals a all_of u, none-or_else (Dict.get principals token))
        refl

  after_loop_inv :
      (o : Option (Option Principal)) (p : Principal)
      → after_loop now o ≡ ok p
      → (found : Option Principal) × (o ≡ some found) × (check_expiry now found ≡ ok p)
  unfolding after_loop
  after_loop_inv none p h = cc
  after_loop_inv (some found) p h = (found, refl, h)

  nothing_found :
      (token : Text) (found : Option Principal) (p : Principal)
      → find_token token none [] ≡ some found
      → check_expiry now found ≡ ok p
      → ⊥
  unfolding find_token check_expiry
  nothing_found token none p e h = cc
  nothing_found token (some q) p e h = cc

  -- What the loop found was found in a table of ASCII tokens.
  resolved_ascii :
      (token : Text) (p : Principal)
      → after_loop now (find_token token none principals) ≡ ok p
      → (is_ascii token ≡ true) × AsciiTokens principals
  resolved_ascii token p h =
      let (found, e, c) = after_loop_inv (find_token token none principals) p h in
      let (all_of, o) = find_token-ascii token none found principals e in
      elim o [ inr a ↦ (a, all_of) | inl n ↦ absurd (nothing_found token found p (rw n at e) c) ]

  -- On a table whose tokens occur once, a token resolves to a principal exactly when it is not empty, it and
  -- all tokens of the table are ASCII, the table gives it to the principal, and the principal has not expired.
  pub resolve_iff :
      (token : Text) (p : Principal)
      → (resolve principals now (some token) ≡ ok p) ↔ Identifies principals now token p
  resolve_iff token p = elim (Bool-cases (is_empty token)) [
    | inl e ↦ (λ h. absurd (resolve_empty token p e h), λ h. cc (e, h.0))
    | inr e ↦ rw (resolve_full token e) (
      λ h.
          let (a, all_of) = resolved_ascii token p h in
          let (found, fresh) =
            (check_expiry_iff now (Dict.get principals token) p).0
              (sym (looked_up token a all_of) ∙ h) in
          (e, a, all_of, found, fresh),
      λ h.
          looked_up token h.1 h.2
          ∙ (check_expiry_iff now (Dict.get principals token) p).1 (h.3, h.4),
    )
  ]

  from_header_iff :
      (header : Option Text) (p : Principal)
      → (from_header principals now header ≡ ok p) ↔ Carries principals now header p
  from_header_iff none p = (λ h. unfold from_header in cc, λ h. elim h [ ])
  from_header_iff (some []) p =
      (λ h. unfold from_header in cc, λ h. unfold starts_with lower in cc h.0)
  from_header_iff (some (c ∷ s)) p =
      elim (Bool-cases (starts_with (codes "bearer ") (lower (c ∷ s)))) [
        | inl e ↦ rw (from_header_bearer principals now (c ∷ s) refl e) (
          λ h. (e, (resolve_iff (strip (drop 7 (c ∷ s))) p).0 h),
          λ h. (resolve_iff (strip (drop 7 (c ∷ s))) p).1 h.1,
        )
        | inr e ↦ rw (from_header_other principals now (c ∷ s) refl e) (λ h. cc, λ h. cc (e, h.0))
      ]

  -- On a table whose tokens occur once, a request is let through as a principal exactly when its header
  -- carries the token of that principal of the table, the token and all tokens of the table being ASCII, the
  -- principal has not expired, and its role is at least the required one.
  pub require_role_iff :
      (required : Role) (header : Option Text) (p : Principal)
      → (require_role required principals now header ≡ granted p)
        ↔ (Carries principals now header p × (level required ≤ level p.role))
  require_role_iff required header p = (
    λ h.
        let (found, enough) =
          check_role_granted required (from_header principals now header) p
            (unfold require_role require_principal in h) in
        ((from_header_iff header p).0 found, enough),
    λ h.
        unfold require_role require_principal in
        rw ((from_header_iff header p).1 h.0) (check_role_enough required p h.1),
  )

  -- On a table whose tokens occur once, a request is answered 403 exactly when its header carries the token
  -- of a principal, the token and all tokens of the table being ASCII, that has not expired and whose role is
  -- below the required one.
  pub require_role_forbidden :
      (required : Role) (header : Option Text)
      → (require_role required principals now header ≡ denied 403)
        ↔ ((p : Principal) × Carries principals now header p × (level p.role < level required))
  require_role_forbidden required header = (
    λ h.
        let (p, found, low) =
          check_role_forbidden required (from_header principals now header)
            (unfold require_role require_principal in h) in
        (p, (from_header_iff header p).0 found, low),
    λ h.
        unfold require_role require_principal in
        rw ((from_header_iff header h.0).1 h.1) (check_role_low required h.0 h.2),
  )
