-- ===== src/Models/Graph/Distinct.antt =====
-- reconkg/models.py: one fingerprint for each key, and one port for each number and protocol.
use reconkg.Base.{ℕ, Bool, false, List, [], ◌∷◌, All, ◌≡◌, refl, Bool-cases, inl, inr}
use reconkg.Base.Text.{text_eq}
use reconkg.Models.Graph.{
  Fingerprint, Port, key, is_at, merge_fingerprint, upsert_fingerprint, merge_port, upsert_port,
}

module _ {ℓ} {A : Type ℓ} (same : A → A → Bool) where
  -- No element is the same as a later one.
  abbrev pub IsDistinct : List A → Type ℓ
  IsDistinct [] = Unit
  IsDistinct (x ∷ xs) = All (λ y. same x y ≡ false) xs × IsDistinct xs

abbrev pub same_key : Fingerprint → Fingerprint → Bool
same_key a b = text_eq (key a) (key b)

abbrev pub same_place : Port → Port → Bool
same_place p q = is_at q.number q.protocol p

module _ (round4 : ℕ → ℕ) where
  key-merge : (new old : Fingerprint) → key (merge_fingerprint round4 new old) ≡ key old
  unfolding key merge_fingerprint
  key-merge new old = refl

  -- What differs from an element by its key differs from everything that an update leaves, if it differs
  -- from the new one as well.
  upsert-differs :
      (f new : Fingerprint) (fs : List Fingerprint)
      → same_key f new ≡ false
      → All (λ g. same_key f g ≡ false) fs
      → All (λ g. same_key f g ≡ false) (upsert_fingerprint round4 new fs).0
  unfolding upsert_fingerprint
  upsert-differs f new [] n h = (n, tt)
  upsert-differs f new (old ∷ fs) n (p, h) = elim (Bool-cases (text_eq (key old) (key new))) [
    | inl e ↦ rw e (rw (key-merge new old) p, h)
    | inr e ↦ rw e (p, upsert-differs f new fs n h)
  ]

  merge-differs :
      (new old : Fingerprint) (fs : List Fingerprint)
      → All (λ g. same_key old g ≡ false) fs
      → All (λ g. same_key (merge_fingerprint round4 new old) g ≡ false) fs
  merge-differs new old fs h = rw (key-merge new old) h

  -- An update keeps one fingerprint for each key.
  pub upsert_fingerprint-IsDistinct :
      (new : Fingerprint) (fs : List Fingerprint)
      → IsDistinct same_key fs
      → IsDistinct same_key (upsert_fingerprint round4 new fs).0
  unfolding upsert_fingerprint
  upsert_fingerprint-IsDistinct new [] h = (tt, tt)
  upsert_fingerprint-IsDistinct new (old ∷ fs) (p, h) =
      elim (Bool-cases (text_eq (key old) (key new))) [
        | inl e ↦ rw e (merge-differs new old fs p, h)
        | inr e ↦ rw e (upsert-differs old new fs e p, upsert_fingerprint-IsDistinct new fs h)
      ]

  place-merge : (new old p : Port) → same_place p (merge_port round4 new old) ≡ same_place p old
  unfolding merge_port
  place-merge new old p = refl

  upsert_port-differs :
      (p new : Port) (ps : List Port)
      → same_place p new ≡ false
      → All (λ q. same_place p q ≡ false) ps
      → All (λ q. same_place p q ≡ false) (upsert_port round4 new ps).0
  unfolding upsert_port
  upsert_port-differs p new [] n h = (n, tt)
  upsert_port-differs p new (old ∷ ps) n (q, h) =
      elim (Bool-cases (is_at new.number new.protocol old)) [
        | inl e ↦ rw e (rw (place-merge new old p) q, h)
        | inr e ↦ rw e (q, upsert_port-differs p new ps n h)
      ]

  merge_port-differs :
      (new old : Port) (ps : List Port)
      → All (λ q. same_place old q ≡ false) ps
      → All (λ q. same_place (merge_port round4 new old) q ≡ false) ps
  unfolding merge_port is_at
  merge_port-differs new old ps h = h

  -- An update keeps one port for each number and protocol.
  pub upsert_port-IsDistinct :
      (new : Port) (ps : List Port)
      → IsDistinct same_place ps
      → IsDistinct same_place (upsert_port round4 new ps).0
  unfolding upsert_port
  upsert_port-IsDistinct new [] h = (tt, tt)
  upsert_port-IsDistinct new (old ∷ ps) (p, h) =
      elim (Bool-cases (is_at new.number new.protocol old)) [
        | inl e ↦ rw e (merge_port-differs new old ps p, h)
        | inr e ↦ rw e (upsert_port-differs old new ps e p, upsert_port-IsDistinct new ps h)
      ]
