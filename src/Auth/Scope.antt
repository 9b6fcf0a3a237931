-- ===== src/Auth/Scope.antt =====
-- reconkg/auth.py: `Principal.may_touch` and `require_scope`. Python's `ipaddress` is the parameter
-- `in_network`: whether an address is in a network, or nothing where either text is not one.
use reconkg.Base.{
  Bool, true, false, ◌||◌, Option, none, some, List, [], ◌∷◌, if◌then◌else◌, ◌==◌, is_empty, any,
  drop, ◌≡◌, ◌⊎◌, ◌↔◌, inl, inr, refl, arith, Bool-cases,
}
use reconkg.Base.Text.{
  ends_with, Text, codes, text_eq, lower, strip, starts_with, eq_of_text_eq, text_eq_refl,
}
use reconkg.Auth.{Principal, Answer, granted, denied}

module _ (in_network : (network address : Text) → Option Bool) where
  unfoldable pub or_false : Option Bool → Bool
  or_false none = false
  or_false (some b) = b

  -- `_scope_matches` of a pattern and an address that are already stripped and in lower case.
  unfoldable pub plain_matches : (pattern_text address : Text) → Bool
  plain_matches pattern_text address =
      if is_empty pattern_text
      then false
      else if text_eq pattern_text (codes "*")
      then true
      else if starts_with (codes "*.") pattern_text
      then ends_with (drop 1 pattern_text) address
      else if any (λ c. c == b'/') pattern_text
      then or_false (in_network pattern_text address)
      else text_eq pattern_text address

  unfoldable pub scope_matches : (pattern_text address : Text) → Bool
  scope_matches pattern_text address =
      plain_matches (lower (strip pattern_text)) (lower (strip address))

  unfoldable pub may_touch : Principal → Text → Bool
  may_touch principal address =
      is_empty principal.scope || any (λ p. scope_matches p address) principal.scope

  -- The code of `require_scope`'s answer.
  unfoldable pub require_scope : Principal → Text → Answer
  require_scope principal address =
      if may_touch principal address then granted principal else denied 403

  -- What a pattern covers: everything, the names under a domain, a network, or one address.
  pub data Covers (pattern_text address : Text) : Type 0 where
    everything : pattern_text ≡ codes "*" → Covers pattern_text address
    under :
        starts_with (codes "*.") pattern_text ≡ true
        → ends_with (drop 1 pattern_text) address ≡ true
        → Covers pattern_text address
    network :
        starts_with (codes "*.") pattern_text ≡ false
        → any (λ c. c == b'/') pattern_text ≡ true
        → in_network pattern_text address ≡ some true
        → Covers pattern_text address
    exact :
        pattern_text ≡ address
        → is_empty address ≡ false
        → starts_with (codes "*.") address ≡ false
        → any (λ c. c == b'/') address ≡ false
        → Covers pattern_text address

  some_of_or_false : (o : Option Bool) → or_false o ≡ true → o ≡ some true
  some_of_or_false o h = unfold or_false in ground arith

  Covers-of_plain : (p a : Text) → plain_matches p a ≡ true → Covers p a
  unfolding plain_matches
  Covers-of_plain p a h = elim (Bool-cases (is_empty p)) [
    | inl e ↦ absurd (ground (arith, h, e))
    | inr e ↦ elim (Bool-cases (text_eq p (codes "*"))) [
      | inl q ↦ everything (eq_of_text_eq p (codes "*") q)
      | inr q ↦ elim (Bool-cases (starts_with (codes "*.") p)) [
        | inl s ↦ under s (rw (e, q, s) at h)
        | inr s ↦ elim (Bool-cases (any (λ c. c == b'/') p)) [
          | inl n ↦ network s n (some_of_or_false (in_network p a) (rw (e, q, s, n) at h))
          | inr n ↦
              let same : p ≡ a = eq_of_text_eq p a (rw (e, q, s, n) at h) in
              exact same (rw (← same) e) (rw (← same) s) (rw (← same) n)
        ]
      ]
    ]
  ]

  plain_of_Covers : (p a : Text) → Covers p a → plain_matches p a ≡ true
  unfolding plain_matches
  plain_of_Covers p a (everything e) = rw e refl
  plain_of_Covers [] a (under s h) = unfold starts_with in absurd (ground arith)
  plain_of_Covers (c ∷ p) a (under s h) = elim (Bool-cases (text_eq (c ∷ p) (codes "*"))) [
    | inl q ↦ rw q refl
    | inr q ↦ rw (q, s) h
  ]
  plain_of_Covers [] a (network s n h) = absurd (ground arith)
  plain_of_Covers (c ∷ p) a (network s n h) = elim (Bool-cases (text_eq (c ∷ p) (codes "*"))) [
    | inl q ↦ rw q refl
    | inr q ↦ rw (q, s, n, h) (unfold or_false in refl)
  ]
  plain_of_Covers p a (exact same e s n) = elim (Bool-cases (text_eq a (codes "*"))) [
    | inl q ↦ rw (same, e, q) refl
    | inr q ↦ rw (same, e, q, s, n) (text_eq_refl a)
  ]

  -- The scope that a principal declares: nothing, or a list of patterns.
  pub data Reaches (address : Text) : List Text → Type 0 where
    first :
        {p : Text} {ps : List Text}
        → Covers (lower (strip p)) (lower (strip address))
        → Reaches address (p ∷ ps)
    later : {p : Text} {ps : List Text} → Reaches address ps → Reaches address (p ∷ ps)

  matches-Reaches :
      (address : Text) (scope : List Text)
      → any (λ p. scope_matches p address) scope ≡ true
      → Reaches address scope
  unfolding scope_matches
  matches-Reaches address [] h = cc h
  matches-Reaches address (p ∷ ps) h =
      elim (Bool-cases (plain_matches (lower (strip p)) (lower (strip address)))) [
        | inl e ↦ first (Covers-of_plain (lower (strip p)) (lower (strip address)) e)
        | inr e ↦ later (matches-Reaches address ps (rw e at h))
      ]

  Reaches-matches :
      (address : Text) (scope : List Text)
      → Reaches address scope
      → any (λ p. scope_matches p address) scope ≡ true
  unfolding scope_matches
  Reaches-matches address _ (first {p} {ps} c) =
      rw (plain_of_Covers (lower (strip p)) (lower (strip address)) c) refl
  Reaches-matches address _ (later {p} {ps} r) = ground (arith, Reaches-matches address ps r)

  -- A principal may touch an address exactly when it declares no scope, or one of its patterns covers the
  -- address, both stripped and in lower case: `*` covers everything, `*.x` the names that end in `.x`, a
  -- pattern with a slash the addresses of that network, and any other pattern only itself.
  pub may_touch_iff :
      (principal : Principal) (address : Text)
      → (may_touch principal address ≡ true)
        ↔ ((is_empty principal.scope ≡ true) ⊎ Reaches address principal.scope)
  unfolding may_touch
  may_touch_iff principal address = elim (Bool-cases (is_empty principal.scope)) [
    | inl e ↦ (λ h. inl e, λ r. rw e refl)
    | inr e ↦ (
      λ h. inr (matches-Reaches address principal.scope (rw e at h)),
      λ r. elim r [
        | inl f ↦ absurd (ground (arith, e, f))
        | inr q ↦ rw e (Reaches-matches address principal.scope q)
      ],
    )
  ]
