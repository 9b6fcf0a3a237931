-- ===== src/Models.antt =====
-- reconkg/models.py: the provenance of a graph node. A confidence is a number of 1/10000; `round(x, 4)` on
-- floats is the parameter `round4`, which takes a number of 1/100000000. An instant is a number.
pub mod History
pub mod Graph
mod Tests
use reconkg.Base.{
  ℕ, ◌+◌, ◌-◌, ◌*◌, Bool, true, false, ◌&&◌, Option, none, some, List, [], ◌∷◌, ◌++◌, if◌then◌else◌,
  leb, ltb, any, length, take, drop,
}
use reconkg.Base.Text.{Text, codes, text_eq}

abbrev pub max_provenance_head : ℕ
max_provenance_head = 5

abbrev pub max_provenance_tail : ℕ
max_provenance_tail = 45

abbrev pub certain : ℕ
certain = 10000

pub record Provenance : Type 0 where
  pub source_tool : Text
  pub principal : Text
  pub observed_at : ℕ
  pub confidence : ℕ
  pub declared_confidence : Option ℕ
  pub note : Option Text

pub record GraphNode : Type 0 where
  pub provenance : Provenance
  pub provenance_log : List Provenance
  pub elided_observations : ℕ

-- `model_post_init` of a node that is given a log.
unfoldable pub new_node : Provenance → List Provenance → GraphNode
new_node provenance [] = record {
  provenance = provenance;
  provenance_log = provenance ∷ [];
  elided_observations = 0;
}
new_node provenance (p ∷ log) = record {
  provenance = provenance;
  provenance_log = p ∷ log;
  elided_observations = 0;
}

-- `_append_bounded` once the log has the observation.
unfoldable pub trim : GraphNode → GraphNode
trim node =
    let head = take max_provenance_head node.provenance_log in
    let tail = drop (length node.provenance_log - max_provenance_tail) node.provenance_log in
    if ltb (max_provenance_head + max_provenance_tail) (length node.provenance_log)
    then record node {
      elided_observations =
          node.elided_observations + (length node.provenance_log - length head - length tail);
      provenance_log = head ++ tail;
    }
    else node

unfoldable pub append_bounded : Provenance → GraphNode → GraphNode
append_bounded obs node = trim (record node { provenance_log = node.provenance_log ++ obs ∷ [] })

unfoldable pub higher : ℕ → ℕ → ℕ
higher a b = if leb a b then b else a

unfoldable pub lower_of : ℕ → ℕ → ℕ
lower_of a b = if leb a b then a else b

unfoldable pub has_heard : Text → GraphNode → Bool
has_heard principal node = any (λ p. text_eq p.principal principal) node.provenance_log

module _ (round4 : ℕ → ℕ) where
  -- `new` of `observe`, in 1/100000000 before it is rounded.
  unfoldable pub combined : (heard : Bool) (old confidence : ℕ) → ℕ
  combined true old confidence = higher old confidence * certain
  combined false old confidence = certain * certain - (certain - old) * (certain - confidence)

  unfoldable pub observe : Provenance → GraphNode → GraphNode
  observe obs node =
      let new = combined (has_heard obs.principal node) node.provenance.confidence obs.confidence in
      record (append_bounded obs node) {
        provenance = record obs { confidence = lower_of (round4 new) certain };
      }

  -- `decay`; the factor is a number of 1/10000, and `now` is the clock. Nothing where it raises.
  unfoldable pub decay : (now factor : ℕ) (reason source_tool : Text) → GraphNode → Option GraphNode
  decay now factor reason source_tool node =
      let provenance : Provenance = record {
        source_tool = source_tool;
        principal = codes "system";
        observed_at = now;
        confidence = round4 (node.provenance.confidence * factor);
        declared_confidence = none;
        note = some (codes "decayed: " ++ reason);
      } in
      if ltb 0 factor && leb factor certain
      then some (append_bounded provenance (record node { provenance = provenance }))
      else none
