-- ===== src/Cpe/Backport.antt =====
-- reconkg/cpe.py: the marks of a distribution's build in a version or a banner. Letters and digits are ASCII
-- ones.
use reconkg.Base.{ℕ, zero, suc, Option, none, some, List, [], ◌∷◌, ◌++◌, if◌then◌else◌, ◌==◌}
use reconkg.Base.Text.{Text, codes, lower_char}
use reconkg.Version.{is_digit, is_alpha}

-- A word in any case at the start of a text, as it stands there, and what is behind it.
unfoldable pub word_at : (word : Text) → Text → Option (Text × Text)
word_at [] s = some ([], s)
word_at (w ∷ ws) [] = none
word_at (w ∷ ws) (c ∷ s) =
    let rest = word_at ws s in
    if lower_char c == w
    then elim rest [ none ↦ none | some (found, more) ↦ some (c ∷ found, more) ]
    else none

-- `\d{least,most}`: the digits in front.
unfoldable pub digits_at : (least most : ℕ) → Text → Option Text
digits_at zero zero s = some []
digits_at (suc l) zero s = none
digits_at zero (suc m) [] = some []
digits_at (suc l) (suc m) [] = none
digits_at zero (suc m) (c ∷ s) =
    let rest = digits_at zero m s in
    if is_digit c then elim rest [ none ↦ none | some ds ↦ some (c ∷ ds) ] else some []
digits_at (suc l) (suc m) (c ∷ s) =
    let rest = digits_at l m s in
    if is_digit c then elim rest [ none ↦ none | some ds ↦ some (c ∷ ds) ] else none

-- A word and a number of digits behind it.
unfoldable pub mark_at : (word : Text) (least most : ℕ) → Text → Option Text
mark_at word least most s = elim (word_at word s) [
  | none ↦ none
  | some (found, more) ↦ elim (digits_at least most more) [
    | none ↦ none
    | some ds ↦ some (found ++ ds)
  ]
]

-- The alternatives of `_BACKPORT_MARKERS`, in their order: a word, and the least and most digits behind it.
abbrev pub backport_words : List (Text × ℕ × ℕ)
backport_words =
    (codes "el", 1, 1)
    ∷ (codes "rhel", 0, 0)
    ∷ (codes "centos", 0, 0)
    ∷ (codes "fc", 1, 2)
    ∷ (codes "ubuntu", 0, 0)
    ∷ (codes "deb", 1, 2)
    ∷ (codes "dfsg", 0, 0)
    ∷ (codes "suse", 0, 0)
    ∷ (codes "sles", 0, 0)
    ∷ (codes "amzn", 0, 0)
    ∷ (codes "al", 4, 4)
    ∷ []

unfoldable pub first_mark : List (Text × ℕ × ℕ) → Text → Option Text
first_mark [] s = none
first_mark ((word, least, most) ∷ words) s =
    let rest = first_mark words s in
    elim (mark_at word least most s) [ none ↦ rest | some m ↦ some m ]

-- A mark behind each character that is no letter.
unfoldable pub mark_behind : Text → Option Text
mark_behind [] = none
mark_behind (c ∷ s) =
    let rest = mark_behind s in
    if is_alpha c
    then rest
    else elim (first_mark backport_words s) [ none ↦ rest | some m ↦ some m ]

-- The first mark of a text: at its start, or behind a character that is no letter.
unfoldable pub find_mark : Text → Option Text
find_mark s = elim (first_mark backport_words s) [ none ↦ mark_behind s | some m ↦ some m ]

unfoldable pub mark_in : Option Text → Option Text
mark_in none = none
mark_in (some text) = find_mark text

unfoldable pub looks_backported : (version banner : Option Text) → Option Text
looks_backported version banner = elim (mark_in version) [ none ↦ mark_in banner | some m ↦ some m ]
