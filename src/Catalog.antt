-- ===== src/Catalog.antt =====
-- reconkg/catalog.py: identifiers of vulnerabilities, and the catalogue of what is public for each. A digit is
-- an ASCII one; the date of a record is left out.
pub mod Identifier
pub mod Spelling
pub mod Maturity
pub mod Oneliner
mod Tests
use reconkg.Base.{
  ℕ, zero, suc, ◌-◌, map, Bool, true, false, ◌&&◌, ◌||◌, not, Option, none, some, List, [], ◌∷◌,
  ◌++◌, if◌then◌else◌, ◌==◌, leb, ltb, is_empty, any, length, take,
}
use reconkg.Base.Text.{Text, codes, text_eq, lower, lower_char, strip, contains}
use reconkg.Base.Dict
use reconkg.Base.Dict.{Dict}
use reconkg.Version.{is_digit}
use reconkg.Vulnref.{
  ExploitMaturity, not_defined, theoretical, proof_of_concept, functional, weaponised,
}

-- `\d{n}`, and what is behind it.
unfoldable pub digits_exactly : ℕ → Text → Option (Text × Text)
digits_exactly zero s = some ([], s)
digits_exactly (suc n) [] = none
digits_exactly (suc n) (c ∷ s) =
    let rest = digits_exactly n s in
    if is_digit c then elim rest [ none ↦ none | some (ds, more) ↦ some (c ∷ ds, more) ] else none

-- The digits in front, `n` at most, and what is behind them.
unfoldable pub digits_up_to : ℕ → Text → Text × Text
digits_up_to zero s = ([], s)
digits_up_to (suc n) [] = ([], [])
digits_up_to (suc n) (c ∷ s) =
    let (ds, more) = digits_up_to n s in if is_digit c then (c ∷ ds, more) else ([], c ∷ s)

unfoldable pub is_joiner : ℕ → Bool
is_joiner c = c == b'-' || c == b'_' || c == b' '

unfoldable pub skip_joiner : Text → Text
skip_joiner [] = []
skip_joiner (c ∷ s) = if is_joiner c then s else c ∷ s

-- `(\d{4,7})`, and what is behind it.
unfoldable pub long_number : Text → Option (Text × Text)
long_number s =
    let (ds, more) = digits_up_to 7 s in if leb 4 (length ds) then some (ds, more) else none

unfoldable pub number_behind : Option (Text × Text) → Option (Text × Text)
number_behind none = none
number_behind (some (year, s)) = elim (long_number (skip_joiner s)) [
  | none ↦ none
  | some (number, more) ↦ some (year, number)
]

-- The pattern `CVE_RE` at one place.
unfoldable pub cve_at : Text → Option (Text × Text)
cve_at (c ∷ v ∷ e ∷ s) =
    if text_eq (lower (c ∷ v ∷ e ∷ [])) (codes "cve")
    then number_behind (digits_exactly 4 (skip_joiner s))
    else none
cve_at _ = none

-- The first place where the pattern stands.
unfoldable pub find_cve : Text → Option (Text × Text)
find_cve [] = none
find_cve (c ∷ s) =
    let rest = find_cve s in elim (cve_at (c ∷ s)) [ none ↦ rest | some found ↦ some found ]

unfoldable pub bare_number : Option (Text × Text) → Option (Text × Text)
bare_number (some (year, c ∷ s)) = elim (long_number s) [
  | none ↦ none
  | some (number, more) ↦ if c == b'-' && is_empty more then some (year, number) else none
]
bare_number _ = none

unfoldable pub cve_text : Text × Text → Text
cve_text (year, number) = codes "CVE-" ++ (year ++ b'-' ∷ number)

unfoldable pub or_bare : Text → Option (Text × Text) → Option Text
or_bare raw (some found) = some (cve_text found)
or_bare raw none = elim (bare_number (digits_exactly 4 (strip raw))) [
  | none ↦ none
  | some found ↦ some (cve_text found)
]

unfoldable pub normalise_cve : Text → Option Text
normalise_cve raw = if is_empty raw then none else or_bare raw (find_cve raw)

pub record ExploitRecord : Type 0 where
  pub source : Text
  pub identifier : Text
  pub title : Text
  pub cves : List Text
  pub platform : Text
  pub kind : Text
  pub verified : Bool
  pub rank : Text
  pub file_path : Text
  pub port : Option ℕ
  pub author : Text

pub record ExploitCatalog : Type 0 where
  pub by_cve : Dict (List ExploitRecord)
  pub records : List ExploitRecord

unfoldable pub new_catalog : ExploitCatalog
new_catalog = record { by_cve = []; records = [] }

unfoldable pub or_nothing : Option (List ExploitRecord) → List ExploitRecord
or_nothing none = []
or_nothing (some rs) = rs

-- `self._by_cve.setdefault(cve, []).append(record)` for each identifier.
unfoldable pub file_under :
    List Text → ExploitRecord → Dict (List ExploitRecord) → Dict (List ExploitRecord)
file_under [] r d = d
file_under (cve ∷ cves) r d =
    file_under cves r (Dict.put d cve (or_nothing (Dict.get d cve) ++ r ∷ []))

unfoldable pub add_record : ExploitRecord → ExploitCatalog → ExploitCatalog
add_record r catalog = record {
  by_cve = file_under r.cves r catalog.by_cve;
  records = catalog.records ++ r ∷ [];
}

unfoldable pub upper_char : ℕ → ℕ
upper_char c = if leb b'a' c && leb c b'z' then c - 32 else c

-- `normalise_cve(cve) or cve.upper()`.
unfoldable pub cve_key : Text → Text
cve_key cve = elim (normalise_cve cve) [ none ↦ map upper_char cve | some key ↦ key ]

unfoldable pub records_for : ExploitCatalog → Text → List ExploitRecord
records_for catalog cve = or_nothing (Dict.get catalog.by_cve (cve_key cve))

unfoldable pub is_from : Text → ExploitRecord → Bool
is_from source r = text_eq r.source source

unfoldable pub identifiers_from : Text → List ExploitRecord → List Text
identifiers_from source [] = []
identifiers_from source (r ∷ rs) =
    let rest = identifiers_from source rs in if is_from source r then r.identifier ∷ rest else rest

unfoldable pub msf_modules_for : ExploitCatalog → Text → List Text
msf_modules_for catalog cve = identifiers_from (codes "metasploit") (records_for catalog cve)

unfoldable pub records_from : Text → List ExploitRecord → List ExploitRecord
records_from source [] = []
records_from source (r ∷ rs) =
    let rest = records_from source rs in if is_from source r then r ∷ rest else rest

unfoldable pub edb_for : ExploitCatalog → Text → List ExploitRecord
edb_for catalog cve = records_from (codes "exploit-db") (records_for catalog cve)

unfoldable pub hits_for : Text → List ExploitRecord → List ExploitRecord
hits_for needle [] = []
hits_for needle (r ∷ rs) =
    let rest = hits_for needle rs in
    if contains needle (lower r.title) || contains needle (lower r.identifier)
    then r ∷ rest
    else rest

unfoldable pub search : ExploitCatalog → Text → (limit : ℕ) → List ExploitRecord
search catalog text limit =
    if is_empty (strip (lower text))
    then []
    else take limit (hits_for (strip (lower text)) catalog.records)

-- `ExploitMaturity.weight`, in tenths.
unfoldable pub maturity_weight : ExploitMaturity → ℕ
maturity_weight not_defined = 5
maturity_weight theoretical = 4
maturity_weight proof_of_concept = 7
maturity_weight functional = 9
maturity_weight weaponised = 10

unfoldable pub inferred : List ExploitRecord → ExploitMaturity
inferred rs =
    if any (is_from (codes "metasploit")) rs
    then weaponised
    else if any (λ r. is_from (codes "exploit-db") r && r.verified) rs
    then functional
    else if any (is_from (codes "exploit-db")) rs
    then proof_of_concept
    else not_defined

unfoldable pub stronger : (found declared : ExploitMaturity) → ExploitMaturity
stronger found declared =
    if ltb (maturity_weight declared) (maturity_weight found) then found else declared

unfoldable pub infer_maturity : ExploitCatalog → Text → ExploitMaturity → ExploitMaturity
infer_maturity catalog cve declared =
    if is_empty (records_for catalog cve)
    then declared
    else stronger (inferred (records_for catalog cve)) declared
