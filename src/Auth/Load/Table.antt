-- ===== src/Auth/Load/Table.antt =====
-- The table that `load_principals` of reconkg/auth.py builds.
use reconkg.Base.{
  ℕ, ◌+◌, ◌≤◌, false, Option, none, some, List, [], ◌∷◌, ◌++◌, is_empty, length, ◌≡◌, refl, sym,
  ◌∙◌, ap, arith, Bool-cases, inl, inr, All, All-append, length-append,
}
use reconkg.Base.Text.{Text, text_eq, eq_of_text_eq, strip}
use reconkg.Base.Dict
use reconkg.Base.Dict.{Dict}
use reconkg.Base.Dict.Unique.{HasUniqueKeys, put-HasUniqueKeys}
use reconkg.Auth.{Principal, ok, resolve}
use reconkg.Auth.Access.{resolve_iff}
use reconkg.Auth.Load.{
  Loaded, loaded, refused, ◌>>=◌, split_on, admit, parse_entry, load_entries, load_principals,
}

abbrev pub IsAdmitted : Text × Principal → Type 0
IsAdmitted (token, principal) = (16 ≤ length token) × (is_empty principal.name ≡ false)

-- A table of principals that the service may start with.
pub record IsSafeTable (principals : Dict Principal) : Type 0 where
  pub unique : HasUniqueKeys principals
  pub admitted : All IsAdmitted principals

put-absent {ℓ} :
    {V : Type ℓ} (d : Dict V) (k : Text) (v : V)
    → Dict.get d k ≡ none
    → Dict.put d k v ≡ d ++ (k, v) ∷ []
unfolding Dict.put Dict.get
put-absent [] k v h = refl
put-absent ((j, w) ∷ d) k v h = elim (Bool-cases (text_eq j k)) [
  | inl e ↦ cc (e, h)
  | inr e ↦ rw e (ap (λ l. (j, w) ∷ l) (put-absent d k v (rw e at h)))
]

admit_inv :
    (token : Text) (principal : Principal) (principals table : Dict Principal)
    → admit (token, principal) principals ≡ loaded table
    → IsAdmitted (token, principal)
      × (Dict.get principals token ≡ none)
      × (Dict.put principals token principal ≡ table)
unfolding admit
admit_inv token principal principals table h = ground arith

admit-IsSafeTable :
    (entry : Text × Principal) (principals table : Dict Principal)
    → IsSafeTable principals
    → admit entry principals ≡ loaded table
    → IsSafeTable table × (length table ≡ length principals + 1)
admit-IsSafeTable (token, principal) principals table s h =
    let (good, fresh, same) = admit_inv token principal principals table h in
    let longer : principals ++ (token, principal) ∷ [] ≡ table =
      sym (put-absent principals token principal fresh) ∙ same in
    (
      record {
        unique = rw (← same) (put-HasUniqueKeys principals token principal s.unique);
        admitted =
            rw (← longer)
              (All-append IsAdmitted principals ((token, principal) ∷ []) s.admitted (good, tt));
      },
      rw (← longer) (length-append principals ((token, principal) ∷ [])),
    )

went_through {κ ℓ} :
    {A : Type κ} {B : Type ℓ} (first : Loaded A) (next : A → Loaded B) {end : B}
    → (first >>= next) ≡ loaded end
    → (mid : A) × (first ≡ loaded mid) × (next mid ≡ loaded end)
went_through (loaded mid) next e = (mid, refl, e)
went_through (refused reason) next e = cc

module _ (parse_date : Text → Option ℕ) where
  load_entries-IsSafeTable :
      (entries : List Text) (principals table : Dict Principal)
      → IsSafeTable principals
      → load_entries parse_date entries principals ≡ loaded table
      → IsSafeTable table × (length table ≡ length principals + length entries)
  unfolding load_entries
  load_entries-IsSafeTable [] principals table s h =
      let same : principals ≡ table = cc h in (rw (← same) s, rw (← same) (omega arith))
  load_entries-IsSafeTable (entry ∷ entries) principals table s h =
      let (parsed, _, h1) = went_through (parse_entry parse_date entry) _ h in
      let (mid, e, h2) = went_through (admit parsed principals) _ h1 in
      let (safe, count) = admit-IsSafeTable parsed principals mid s e in
      let (all_safe, total) = load_entries-IsSafeTable entries mid table safe h2 in
      (all_safe, omega (arith, count, total))

  -- A table that is loaded has one principal for each entry of the text, no token twice, no token of
  -- fewer than 16 characters and no principal without a name.
  pub load_principals-IsSafeTable :
      (raw : Text) (table : Dict Principal)
      → load_principals parse_date raw ≡ loaded table
      → IsSafeTable table × (length table ≡ length (split_on b',' raw))
  unfolding load_principals
  load_principals-IsSafeTable raw table h = elim (Bool-cases (is_empty (strip raw))) [
    | inl e ↦ absurd (ground (arith, h, e))
    | inr e ↦
        let (safe, count) =
          load_entries-IsSafeTable (split_on b',' raw) [] table
            (record { unique = tt; admitted = tt }) (rw e at h) in
        (safe, omega (arith, count))
  ]

  All-get :
      (d : Dict Principal) (k : Text) (p : Principal)
      → All IsAdmitted d
      → Dict.get d k ≡ some p
      → IsAdmitted (k, p)
  unfolding Dict.get
  All-get [] k p a h = cc h
  All-get ((j, q) ∷ d) k p (good, a) h = elim (Bool-cases (text_eq j k)) [
    | inl e ↦ let same : q ≡ p = ground (arith, h, e) in rw (← eq_of_text_eq j k e, ← same) good
    | inr e ↦ All-get d k p a (rw e at h)
  ]

  -- With a table that was loaded, a token that resolves to a principal has 16 characters or more, and the
  -- principal has a name.
  pub resolve-load_principals :
      (raw : Text) (table : Dict Principal) (now : ℕ) (token : Text) (principal : Principal)
      → load_principals parse_date raw ≡ loaded table
      → resolve table now (some token) ≡ ok principal
      → IsAdmitted (token, principal)
  resolve-load_principals raw table now token principal h r =
      let (safe, _) = load_principals-IsSafeTable raw table h in
      let (_, _, _, found, _) = (resolve_iff table now safe.unique token principal).0 r in
      All-get table token principal safe.admitted found
