-- ===== src/Store/Unique.antt =====
-- reconkg/store.py: what the writes keep of the graph: one port for each place of a host, one fingerprint for
-- each key and one lead for each vulnerability and fingerprint of a service, one host for each address.
use reconkg.Base.{
  ℕ, Bool, true, false, ◌&&◌, Option, none, some, List, [], ◌∷◌, ◌++◌, All, ◌≡◌, refl, sym, ap,
  subst, map, ◌==◌, ◌∙◌, arith, Bool-cases, inl, inr,
}
use reconkg.Base.Text.{Text, text_eq, eq_of_text_eq, text_eq_refl}
use reconkg.Models.{GraphNode}
use reconkg.Models.Graph.{
  Fingerprint, VulnLead, Service, Port, Protocol, tcp, udp, Host, key, same_protocol, is_at,
  find_in, or_service, merge_port, upsert_port,
}
use reconkg.Store.{replace_port}
use reconkg.Models.Graph.Distinct.{IsDistinct, same_key, same_place}
use reconkg.Store.Operations.{has_lead, find_fingerprint, replace_fingerprint}

abbrev pub same_lead : VulnLead → VulnLead → Bool
same_lead l lead =
    text_eq l.cve_id lead.cve_id && text_eq l.matched_fingerprint_id lead.matched_fingerprint_id

abbrev pub IsService : Service → Type 0
IsService s = IsDistinct same_key s.fingerprints × IsDistinct same_lead s.leads

abbrev pub IsServed : Option Service → Type 0
IsServed none = Unit
IsServed (some s) = IsService s

abbrev pub IsPort : Port → Type 0
IsPort p = IsServed p.service

abbrev pub IsHost : Host → Type 0
IsHost h = IsDistinct same_place h.ports × All IsPort h.ports

append-differs {ℓ} :
    {A : Type ℓ} (same : A → A → Bool) (x y : A) (xs : List A)
    → All (λ z. same x z ≡ false) xs
    → same x y ≡ false
    → All (λ z. same x z ≡ false) (xs ++ y ∷ [])
append-differs same x y [] h n = (n, tt)
append-differs same x y (z ∷ xs) (p, h) n = (p, append-differs same x y xs h n)

-- A lead that is not there yet may be put behind.
pub append-lead :
    (lead : VulnLead) (ls : List VulnLead)
    → has_lead lead ls ≡ false
    → IsDistinct same_lead ls
    → IsDistinct same_lead (ls ++ lead ∷ [])
unfolding has_lead
append-lead lead [] n h = (tt, tt)
append-lead lead (l ∷ ls) n (p, h) = (
  append-differs same_lead l lead ls p (ground (arith, n)),
  append-lead lead ls (ground (arith, n)) h,
)

-- Being distinct by a key is a matter of the keys alone.
module _ {ℓ κ} {A : Type ℓ} {K : Type κ} (by_key : A → K) (same : K → K → Bool) where
  differ-map :
      (k : K) (xs : List A)
      → All (λ x. same k (by_key x) ≡ false) xs
      → All (λ j. same k j ≡ false) (map by_key xs)
  differ-map k [] h = tt
  differ-map k (x ∷ xs) (p, h) = (p, differ-map k xs h)

  differ_of_map :
      (k : K) (xs : List A)
      → All (λ j. same k j ≡ false) (map by_key xs)
      → All (λ x. same k (by_key x) ≡ false) xs
  differ_of_map k [] h = tt
  differ_of_map k (x ∷ xs) (p, h) = (p, differ_of_map k xs h)

  keys-IsDistinct :
      (xs : List A)
      → IsDistinct (λ x y. same (by_key x) (by_key y)) xs
      → IsDistinct same (map by_key xs)
  keys-IsDistinct [] h = tt
  keys-IsDistinct (x ∷ xs) (p, h) = (differ-map (by_key x) xs p, keys-IsDistinct xs h)

  map-IsDistinct :
      (xs : List A)
      → IsDistinct same (map by_key xs)
      → IsDistinct (λ x y. same (by_key x) (by_key y)) xs
  map-IsDistinct [] h = tt
  map-IsDistinct (x ∷ xs) (p, h) = (differ_of_map (by_key x) xs p, map-IsDistinct xs h)

  same_keys-IsDistinct :
      (xs ys : List A)
      → map by_key ys ≡ map by_key xs
      → IsDistinct (λ x y. same (by_key x) (by_key y)) xs
      → IsDistinct (λ x y. same (by_key x) (by_key y)) ys
  same_keys-IsDistinct xs ys e h = map-IsDistinct ys (rw e (keys-IsDistinct xs h))

found_id :
    (id : Text) (fs : List Fingerprint) (f : Fingerprint)
    → find_fingerprint id fs ≡ some f
    → f.id ≡ id
unfolding find_fingerprint
found_id id [] f e = cc
found_id id (g ∷ fs) f e = elim (Bool-cases (text_eq g.id id)) [
  | inl t ↦ let same : g ≡ f = ground (arith, e, t) in rw (← same) (eq_of_text_eq g.id id t)
  | inr t ↦ found_id id fs f (ground (arith, e, t))
]

keys-replace :
    (f : Fingerprint) (node : GraphNode) (id : Text) (fs : List Fingerprint)
    → find_fingerprint id fs ≡ some f
    → map key (replace_fingerprint (record f { node = node }) fs) ≡ map key fs
unfolding find_fingerprint replace_fingerprint key
keys-replace f node id [] e = refl
keys-replace f node id (g ∷ fs) e = elim (Bool-cases (text_eq g.id id)) [
  | inl t ↦ let same : g ≡ f = ground (arith, e, t) in rw (same, text_eq_refl f.id) refl
  | inr t ↦
      let i : f.id ≡ id = found_id id fs f (ground (arith, e, t)) in
      rw (i, t) (ap (λ ks. key g ∷ ks) (keys-replace f node id fs (ground (arith, e, t))))
]

-- The fingerprint that is found keeps its key under another node, and so does the service.
pub replace_fingerprint-IsDistinct :
    (f : Fingerprint) (node : GraphNode) (id : Text) (fs : List Fingerprint)
    → find_fingerprint id fs ≡ some f
    → IsDistinct same_key fs
    → IsDistinct same_key (replace_fingerprint (record f { node = node }) fs)
replace_fingerprint-IsDistinct f node id fs e h =
    same_keys-IsDistinct key text_eq fs (replace_fingerprint (record f { node = node }) fs)
      (keys-replace f node id fs e) h

abbrev Spot : Type 0
Spot = ℕ × Protocol

abbrev spot : Port → Spot
spot p = (p.number, p.protocol)

abbrev same_spot : Spot → Spot → Bool
same_spot (m, p) (n, q) = m == n && same_protocol p q

same_protocol_inv : (p q : Protocol) → same_protocol p q ≡ true → p ≡ q
unfolding same_protocol
same_protocol_inv tcp tcp h = refl
same_protocol_inv tcp udp h = cc
same_protocol_inv udp tcp h = cc
same_protocol_inv udp udp h = refl

is_at_inv :
    (new p : Port)
    → is_at new.number new.protocol p ≡ true
    → (p.number ≡ new.number) × (p.protocol ≡ new.protocol)
unfolding is_at
is_at_inv new p t =
    (ground (arith, t), same_protocol_inv p.protocol new.protocol (ground (arith, t)))

spots-replace : (new : Port) (ps : List Port) → map spot (replace_port new ps) ≡ map spot ps
unfolding replace_port
spots-replace new [] = refl
spots-replace new (p ∷ ps) = elim (Bool-cases (is_at new.number new.protocol p)) [
  | inl t ↦
      let at : (p.number ≡ new.number) × (p.protocol ≡ new.protocol) = is_at_inv new p t in
      rw t (
        ap (λ s. s ∷ map spot ps)
          (ap (λ n. (n, new.protocol)) (sym at.0) ∙ ap (λ q. (p.number, q)) (sym at.1)))
  | inr t ↦ rw t (ap (λ ss. spot p ∷ ss) (spots-replace new ps))
]

-- A host has the same places of ports behind a replacement.
pub replace_port-IsDistinct :
    (new : Port) (ps : List Port)
    → IsDistinct same_place ps
    → IsDistinct same_place (replace_port new ps)
unfolding is_at
replace_port-IsDistinct new ps h =
    same_keys-IsDistinct spot same_spot ps (replace_port new ps) (spots-replace new ps) h

pub replace_port-All :
    (new : Port) (ps : List Port) → IsPort new → All IsPort ps → All IsPort (replace_port new ps)
unfolding replace_port
replace_port-All new [] n h = tt
replace_port-All new (p ∷ ps) n (q, h) = elim (Bool-cases (is_at new.number new.protocol p)) [
  | inl t ↦ rw t (n, h)
  | inr t ↦ rw t (q, replace_port-All new ps n h)
]

pub find_in-IsPort :
    (number : ℕ) (protocol : Protocol) (ps : List Port) (p : Port)
    → All IsPort ps
    → find_in number protocol ps ≡ some p
    → IsPort p
unfolding find_in
find_in-IsPort number protocol [] p h e = cc
find_in-IsPort number protocol (q ∷ ps) p (k, h) e = elim (Bool-cases (is_at number protocol q)) [
  | inl t ↦ let same : q ≡ p = ground (arith, e, t) in subst IsPort same k
  | inr t ↦ find_in-IsPort number protocol ps p h (ground (arith, e, t))
]

module _ (round4 : ℕ → ℕ) where
  or_service-IsServed :
      (old new : Option Service) → IsServed old → IsServed new → IsServed (or_service old new)
  unfolding or_service
  or_service-IsServed none new h k = k
  or_service-IsServed (some s) new h k = h

  merge_port-IsPort :
      (new old : Port) → IsPort new → IsPort old → IsPort (merge_port round4 new old)
  unfolding merge_port
  merge_port-IsPort new old n h = or_service-IsServed old.service new.service h n

  pub upsert_port-All :
      (new : Port) (ps : List Port)
      → IsPort new
      → All IsPort ps
      → All IsPort (upsert_port round4 new ps).0
  unfolding upsert_port
  upsert_port-All new [] n h = (n, tt)
  upsert_port-All new (p ∷ ps) n (q, h) = elim (Bool-cases (is_at new.number new.protocol p)) [
    | inl t ↦ rw t (merge_port-IsPort new p n q, h)
    | inr t ↦ rw t (q, upsert_port-All new ps n h)
  ]
