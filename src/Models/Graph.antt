-- ===== src/Models/Graph.antt =====
-- reconkg/models.py: fingerprints, services, ports and hosts. A node's own fields are its `node`. Where a
-- method changes an object in a list, the list is given back with the object.
pub mod Distinct
use reconkg.Base.{
  ℕ, Bool, true, false, ◌&&◌, ◌||◌, not, Option, none, some, List, [], ◌∷◌, ◌++◌, if◌then◌else◌,
  ◌==◌, leb, ltb, is_empty, map,
}
use reconkg.Base.Text.{Text, codes, text_eq, lower}
use reconkg.Models.{Provenance, GraphNode, observe}
use reconkg.Cpe.Applicability.{MatchMethod}
use reconkg.Vulnref.{ExploitMaturity, Reason, or_empty}

pub record Fingerprint : Type 0 where
  pub id : Text
  pub node : GraphNode
  pub product : Option Text
  pub version : Option Text
  pub cpe : Option Text
  pub raw_banner : Option Text
  pub ambiguous : Bool

-- The parts that the text of a lead's rationale is joined from.
pub record Rationale : Type 0 where
  pub reason : Reason
  pub notes : Text
  pub disputed : Bool
  pub backport_marker : Option Text
  pub exploitation : Text
  pub method : MatchMethod

pub record VulnLead : Type 0 where
  pub node : GraphNode
  pub cve_id : Text
  pub title : Text
  pub cvss : ℕ
  pub exploit_maturity : ExploitMaturity
  pub matched_fingerprint_id : Text
  pub rationale : Rationale
  pub priority : ℕ

pub record Service : Type 0 where
  pub node : GraphNode
  pub name : Text
  pub tunnel : Option Text
  pub fingerprints : List Fingerprint
  pub leads : List VulnLead

pub data PortState : Type 0 where
  open_port closed filtered unknown : PortState

pub data Protocol : Type 0 where
  tcp udp : Protocol

pub record Port : Type 0 where
  pub node : GraphNode
  pub number : ℕ
  pub protocol : Protocol
  pub state : PortState
  pub service : Option Service

pub record Host : Type 0 where
  pub node : GraphNode
  pub address : Text
  pub hostnames : List Text
  pub os_guess : Option Text
  pub ports : List Port

-- `x or y` for an optional text `x`.
unfoldable pub or_text : Option Text → Option Text → Option Text
or_text none other = other
or_text (some []) other = other
or_text (some (c ∷ s)) other = some (c ∷ s)

unfoldable pub or_unknown : Option Text → Text
or_unknown none = codes "?"
or_unknown (some []) = codes "?"
or_unknown (some (c ∷ s)) = c ∷ s

-- `Fingerprint.key`.
unfoldable pub key : Fingerprint → Text
key f = lower (or_unknown f.product) ++ b'/' ∷ or_unknown f.version

unfoldable pub drop_ambiguous : List Fingerprint → List Fingerprint
drop_ambiguous [] = []
drop_ambiguous (f ∷ fs) = let rest = drop_ambiguous fs in if f.ambiguous then rest else f ∷ rest

-- `max(pool, key=confidence)`: the first of the largest.
unfoldable pub strongest : Fingerprint → List Fingerprint → Fingerprint
strongest best [] = best
strongest best (f ∷ fs) =
    strongest (if ltb best.node.provenance.confidence f.node.provenance.confidence then f else best)
      fs

unfoldable pub strongest_of : List Fingerprint → Option Fingerprint
strongest_of [] = none
strongest_of (f ∷ fs) = some (strongest f fs)

unfoldable pub pool : (candidates fingerprints : List Fingerprint) → List Fingerprint
pool [] fs = fs
pool (c ∷ cs) fs = c ∷ cs

unfoldable pub best_fingerprint : Service → Option Fingerprint
best_fingerprint s = strongest_of (pool (drop_ambiguous s.fingerprints) s.fingerprints)

unfoldable pub is_credible : (floor : ℕ) → Fingerprint → Bool
is_credible floor f =
    leb floor f.node.provenance.confidence && not (is_empty (or_empty f.version)) && not f.ambiguous

unfoldable pub disagree : Fingerprint → Fingerprint → Bool
disagree a b =
    text_eq (lower (or_empty a.product)) (lower (or_empty b.product))
    && not (text_eq (or_empty a.version) (or_empty b.version))

unfoldable pub credible : (floor : ℕ) → List Fingerprint → List Fingerprint
credible floor [] = []
credible floor (f ∷ fs) =
    let rest = credible floor fs in if is_credible floor f then f ∷ rest else rest

unfoldable pub conflicts_of : Fingerprint → List Fingerprint → List (Fingerprint × Fingerprint)
conflicts_of a [] = []
conflicts_of a (b ∷ bs) =
    let rest = conflicts_of a bs in if disagree a b then (a, b) ∷ rest else rest

unfoldable pub pairs : List Fingerprint → List (Fingerprint × Fingerprint)
pairs [] = []
pairs (a ∷ bs) = conflicts_of a bs ++ pairs bs

unfoldable pub contradictions : (floor : ℕ) → Service → List (Fingerprint × Fingerprint)
contradictions floor s = pairs (credible floor s.fingerprints)

unfoldable pub same_protocol : Protocol → Protocol → Bool
same_protocol tcp tcp = true
same_protocol udp udp = true
same_protocol _ _ = false

unfoldable pub is_at : ℕ → Protocol → Port → Bool
is_at number protocol p = p.number == number && same_protocol p.protocol protocol

unfoldable pub find_in : ℕ → Protocol → List Port → Option Port
find_in number protocol [] = none
find_in number protocol (p ∷ ps) =
    if is_at number protocol p then some p else find_in number protocol ps

unfoldable pub find_port : ℕ → Protocol → Host → Option Port
find_port number protocol h = find_in number protocol h.ports

-- `port.state` where it is not UNKNOWN.
unfoldable pub newer_state : PortState → PortState → PortState
newer_state unknown old = old
newer_state new old = new

unfoldable pub or_service : Option Service → Option Service → Option Service
or_service none other = other
or_service (some s) other = some s

unfoldable pub iter_services : List Port → List (Port × Service)
iter_services [] = []
iter_services (p ∷ ps) = elim p.service [
  | none ↦ iter_services ps
  | some s ↦ (p, s) ∷ iter_services ps
]

unfoldable pub leads_at : List (Port × Service) → List VulnLead
leads_at [] = []
leads_at ((p, s) ∷ places) = s.leads ++ leads_at places

unfoldable pub all_leads : Host → List VulnLead
all_leads h = leads_at (iter_services h.ports)

module _ (round4 : ℕ → ℕ) where
  unfoldable pub merge_fingerprint : (new old : Fingerprint) → Fingerprint
  merge_fingerprint new old = record old {
    node = observe round4 new.node.provenance old.node;
    ambiguous = old.ambiguous && new.ambiguous;
    raw_banner = or_text old.raw_banner new.raw_banner;
    cpe = or_text old.cpe new.cpe;
  }

  unfoldable pub upsert_fingerprint :
      Fingerprint → List Fingerprint → List Fingerprint × Fingerprint
  upsert_fingerprint new [] = (new ∷ [], new)
  upsert_fingerprint new (old ∷ fs) =
      let (rest, stored) = upsert_fingerprint new fs in
      if text_eq (key old) (key new)
      then (merge_fingerprint new old ∷ fs, merge_fingerprint new old)
      else (old ∷ rest, stored)

  unfoldable pub merge_port : (new old : Port) → Port
  merge_port new old = record old {
    node = observe round4 new.node.provenance old.node;
    state = newer_state new.state old.state;
    service = or_service old.service new.service;
  }

  unfoldable pub upsert_port : Port → List Port → List Port × Port
  upsert_port new [] = (new ∷ [], new)
  upsert_port new (old ∷ ps) =
      let (rest, stored) = upsert_port new ps in
      if is_at new.number new.protocol old
      then (merge_port new old ∷ ps, merge_port new old)
      else (old ∷ rest, stored)
