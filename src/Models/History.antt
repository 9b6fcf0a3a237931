-- ===== src/Models/History.antt =====
-- The log of a node of reconkg/models.py over a list of observations.
use reconkg.Base.{
  ℕ, ◌+◌, ◌-◌, ◌*◌, leb, ◌≤◌, true, List, [], ◌∷◌, ◌++◌, if◌then◌else◌, ltb, length, take, drop,
  length-append, length-take, length-drop, ◌≡◌, refl, arith, Bool-cases, inl, inr,
}
use reconkg.Models.{
  Provenance, GraphNode, trim, append_bounded, observe, max_provenance_head, max_provenance_tail,
  certain, has_heard, combined, higher, lower_of,
}

-- What a node has been told: the observations in its log and those that the cap dropped.
abbrev pub told : GraphNode → ℕ
told node = node.elided_observations + length node.provenance_log

trim-told :
    (node : GraphNode) → (told (trim node) ≡ told node) × (length (trim node).provenance_log ≤ 50)
unfolding trim
trim-told node = elim (Bool-cases (ltb 50 (length node.provenance_log))) [
  | inl e ↦ rw e (
      let long : 51 ≤ length node.provenance_log = ground (arith, e) in
      let head : length (take max_provenance_head node.provenance_log) ≡ 5 =
        length-take 5 node.provenance_log (omega (arith, long)) in
      let tail : length
            (drop (length node.provenance_log - max_provenance_tail) node.provenance_log)
          ≡ 45 =
        omega (
          arith,
          long,
          length-drop (length node.provenance_log - max_provenance_tail) node.provenance_log,
        ) in
      let both =
        length-append (take max_provenance_head node.provenance_log)
          (drop (length node.provenance_log - max_provenance_tail) node.provenance_log) in
      (omega (arith, long, head, tail, both), omega (arith, head, tail, both)))
  | inr e ↦ rw e (refl, ground (arith, e))
]

append_bounded-told :
    (obs : Provenance) (node : GraphNode)
    → (told (append_bounded obs node) ≡ told node + 1)
      × (length (append_bounded obs node).provenance_log ≤ 50)
unfolding append_bounded
append_bounded-told obs node =
    let (same, bound) =
      trim-told (record node { provenance_log = node.provenance_log ++ obs ∷ [] }) in
    (omega (arith, same, length-append node.provenance_log (obs ∷ [])), bound)

module _ (round4 : ℕ → ℕ) where
  observe-told :
      (obs : Provenance) (node : GraphNode)
      → (told (observe round4 obs node) ≡ told node + 1)
        × (length (observe round4 obs node).provenance_log ≤ 50)
  unfolding observe
  observe-told obs node = append_bounded-told obs node

  abbrev pub observe_all : List Provenance → GraphNode → GraphNode
  observe_all [] node = node
  observe_all (obs ∷ rest) node = observe_all rest (observe round4 obs node)

  -- Whatever a node whose log has 50 entries or fewer is told, the log keeps 50 or fewer, and the entries
  -- of the log and the count of the dropped ones are together one more for each observation.
  pub observe_all-told :
      (observations : List Provenance) (node : GraphNode)
      → length node.provenance_log ≤ 50
      → (length (observe_all observations node).provenance_log ≤ 50)
        × ((observe_all observations node).elided_observations
              + length (observe_all observations node).provenance_log
            ≡ node.elided_observations + length node.provenance_log + length observations)
  observe_all-told [] node h = (h, omega arith)
  observe_all-told (obs ∷ rest) node h =
      let (count, bound) = observe-told obs node in
      let (short, total) = observe_all-told rest (observe round4 obs node) bound in
      (short, omega (arith, count, total))

  -- If rounding keeps a confidence that has four digits, an observation by a principal that is in the log
  -- compounds nothing: the new confidence is the larger of the two, whatever tool it names.
  pub observe-heard :
      ((n : ℕ) → round4 (n * certain) ≡ n)
      → (obs : Provenance) (node : GraphNode) → has_heard obs.principal node ≡ true
      → obs.confidence ≤ certain
      → node.provenance.confidence ≤ certain
      → (observe round4 obs node).provenance.confidence ≡ (
          if leb node.provenance.confidence obs.confidence
          then obs.confidence
          else node.provenance.confidence)
  unfolding observe combined higher lower_of
  observe-heard exact obs node heard h k =
      rw (heard, exact (higher node.provenance.confidence obs.confidence)) (ground (arith, h, k))
