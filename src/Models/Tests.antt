-- ===== src/Models/Tests.antt =====
-- Runs of reconkg/models.py.
use reconkg.Base.{ℕ, ◌+◌, ◌*◌, ◌/◌, ◌≤◌, true, none, List, [], ◌∷◌, length, ◌≡◌, refl, arith}
use reconkg.Base.Text.{Text, codes, text_eq}
use reconkg.Models.{Provenance, GraphNode, certain, has_heard}
use reconkg.Models.History.{observe_all, observe_all-told}

-- A rounding down to four digits.
abbrev floor4 : ℕ → ℕ
floor4 n = n / 10000

abbrev claim : Text → Text → ℕ → Provenance
claim tool principal confidence = record {
  source_tool = tool;
  principal = principal;
  observed_at = 0;
  confidence = confidence;
  declared_confidence = none;
  note = none;
}

abbrev node : GraphNode
node = record {
  provenance = claim (codes "nmap-sV") (codes "box1") 4000;
  provenance_log = claim (codes "nmap-sV") (codes "box1") 4000 ∷ [];
  elided_observations = 0;
}

abbrev observations : List Provenance
observations =
    claim (codes "whatweb") (codes "box2") 5000 ∷ claim (codes "x") (codes "box1") 9000 ∷ []

observe_all-told_example :
    (length (observe_all floor4 observations node).provenance_log ≤ 50)
    × ((observe_all floor4 observations node).elided_observations
          + length (observe_all floor4 observations node).provenance_log
        ≡ node.elided_observations + length node.provenance_log + length observations)
observe_all-told_example = observe_all-told floor4 observations node (omega arith)

floor4_exact : (n : ℕ) → floor4 (n * certain) ≡ n
floor4_exact n = omega arith

heard : has_heard (codes "box1") node ≡ true
unfolding has_heard text_eq
heard = refl
