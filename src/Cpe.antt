-- ===== src/Cpe.antt =====
-- reconkg/cpe.py: CPE names, their text form and its parser.
pub mod Backport
pub mod Escape
pub mod RoundTrip
pub mod Stable
pub mod Applicability
pub mod Infer
mod Tests
use reconkg.Base.{
  ℕ, suc, Bool, true, false, ◌&&◌, ◌||◌, not, List, [], ◌∷◌, ◌++◌, map, if◌then◌else◌, ◌==◌, length,
  is_empty, Option, none, some, get_elem?, drop, any,
}
use reconkg.Base.Text.{Text, codes, text_eq, lower, strip, starts_with, replace, join}
use mathlib.Core.List.{foldl}

abbrev pub any_value : Text
any_value = codes "*"

abbrev pub na : Text
na = codes "-"

pub record Cpe : Type 0 where
  pub part : Text
  pub vendor : Text
  pub product : Text
  pub version : Text
  pub update : Text
  pub edition : Text
  pub language : Text
  pub sw_edition : Text
  pub target_sw : Text
  pub target_hw : Text
  pub other : Text

-- The values of `_ATTRS`, in its order.
unfoldable pub attrs : Cpe → List Text
attrs c =
    c.part ∷ c.vendor ∷ c.product ∷ c.version ∷ c.update ∷ c.edition ∷ c.language ∷ c.sw_edition
    ∷ c.target_sw ∷ c.target_hw ∷ c.other ∷ []

unfoldable pub has_version : Cpe → Bool
has_version c = not (text_eq c.version any_value || text_eq c.version na || text_eq c.version [])

abbrev pub backslash : ℕ
backslash = 92

abbrev pub colon : ℕ
colon = 58

abbrev pub newline : ℕ
newline = 10

unfoldable pub escape : Text → Text
unfolding replace
escape value =
    replace colon (backslash ∷ colon ∷ []) (replace backslash (backslash ∷ backslash ∷ []) value)

-- `re.sub(r"\\(.)", r"\1", value)`; the dot does not match a newline.
unfoldable pub unescape : Text → Text
unescape [] = []
unescape (c ∷ []) = c ∷ []
unescape (c ∷ d ∷ s) =
    let taken = d ∷ unescape s in
    let kept = c ∷ unescape (d ∷ s) in if c == backslash && not (d == newline) then taken else kept

abbrev pub prefix_23 : Text
prefix_23 = codes "cpe:2.3:"

abbrev pub prefix_22 : Text
prefix_22 = codes "cpe:/"

-- `CPE.__str__`.
unfoldable pub to_text : Cpe → Text
unfolding attrs escape join
to_text c = prefix_23 ++ join (colon ∷ []) (map escape (attrs c))

-- The variables of the loop of `_split_escaped`.
pub record SplitState : Type 0 where
  pub out : List Text
  pub current : Text
  pub escaped : Bool

unfoldable pub split_step : SplitState → ℕ → SplitState
split_step s char =
    if s.escaped
    then record s { current = s.current ++ backslash ∷ char ∷ []; escaped = false }
    else if char == backslash
    then record s { escaped = true }
    else if char == colon
    then record s { out = s.out ++ s.current ∷ []; current = [] }
    else record s { current = s.current ++ char ∷ [] }

abbrev pub split_start : SplitState
split_start = record { out = []; current = []; escaped = false }

abbrev pub split_end : SplitState → List Text
split_end s = s.out ++ s.current ∷ []

unfoldable pub split_escaped : Text → List Text
unfolding split_step
split_escaped text = split_end (foldl split_step split_start text)

-- The value of the attribute with an index: absent and empty ones are ANY.
abbrev pub field_of : Option Text → Text
field_of none = any_value
field_of (some []) = any_value
field_of (some (c ∷ s)) = unescape (c ∷ s)

unfoldable pub from_parts : List Text → Cpe
from_parts parts = record {
  part = field_of (get_elem? parts 0);
  vendor = field_of (get_elem? parts 1);
  product = field_of (get_elem? parts 2);
  version = field_of (get_elem? parts 3);
  update = field_of (get_elem? parts 4);
  edition = field_of (get_elem? parts 5);
  language = field_of (get_elem? parts 6);
  sw_edition = field_of (get_elem? parts 7);
  target_sw = field_of (get_elem? parts 8);
  target_hw = field_of (get_elem? parts 9);
  other = field_of (get_elem? parts 10);
}

abbrev pub known_parts : List Text
known_parts = codes "a" ∷ codes "o" ∷ codes "h" ∷ any_value ∷ na ∷ []

unfoldable pub checked_parts : List Text → Option Cpe
checked_parts [] = none
checked_parts (p ∷ parts) =
    if any (text_eq p) known_parts then some (from_parts (p ∷ parts)) else none

-- The branches of `parse` on the prefix; the texts are already stripped and lower-cased.
unfoldable pub parse_stripped : Text → Option Cpe
parse_stripped text =
    if starts_with prefix_23 text
    then checked_parts (split_escaped (drop (length prefix_23) text))
    else if starts_with prefix_22 text
    then checked_parts (split_escaped (drop (length prefix_22) text))
    else none

unfoldable pub parse : Option Text → Option Cpe
parse none = none
parse (some raw) = if is_empty (strip raw) then none else parse_stripped (lower (strip raw))
