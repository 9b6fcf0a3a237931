-- ===== src/Version.antt =====
-- reconkg/vulnref.py: `parse_version`, `compare_versions` and `version_satisfies`.
-- The result -1, 0, 1 of `compare_versions` is `lt`, `eq`, `gt`. `\d` is read as 0 to 9.
pub mod Order
pub mod Padding
pub mod Laws
mod Tests
use reconkg.Base.{
  ℕ, ◌+◌, ◌-◌, ◌*◌, Ordering, compare, max, Bool, true, false, ◌||◌, ◌&&◌, not, List, [], ◌∷◌, ◌++◌,
  if◌then◌else◌, leb, length, replicate, any, is_empty, Option, none, some,
}
use reconkg.Base.Text.{Text, lower, codes, text_eq}

-- A token as the pair (0, word) or (1, value).
pub data Token : Type 0 where
  word : Text → Token
  number : ℕ → Token

unfoldable pub is_digit : ℕ → Bool
is_digit c = leb b'0' c && leb c b'9'

unfoldable pub is_alpha : ℕ → Bool
is_alpha c = leb b'a' c && leb c b'z' || leb b'A' c && leb c b'Z'

-- `int` of a run of digits, one more digit at a time.
unfoldable pub add_digit : ℕ → ℕ → ℕ
add_digit n c = n * 10 + (c - b'0')

-- The match of `\d+|[a-zA-Z]+` that the scan is in: its value, or its letters, lower-cased.
pub data Run : Type 0 where
  outside : Run
  digits : ℕ → Run
  letters : Text → Run

unfoldable pub close : Run → List Token
close outside = []
close (digits n) = number n ∷ []
close (letters w) = word w ∷ []

unfoldable pub extend_digits : Run → ℕ → List Token × Run
unfolding close add_digit
extend_digits (digits n) c = ([], digits (add_digit n c))
extend_digits run c = (close run, digits (add_digit 0 c))

unfoldable pub extend_letters : Run → ℕ → List Token × Run
unfolding close lower
extend_letters (letters w) c = ([], letters (w ++ lower (c ∷ [])))
extend_letters run c = (close run, letters (lower (c ∷ [])))

unfoldable pub next_run : Run → ℕ → List Token × Run
unfolding is_digit is_alpha extend_digits extend_letters
next_run run c =
    if is_digit c
    then extend_digits run c
    else if is_alpha c
    then extend_letters run c
    else (close run, outside)

unfoldable pub scan : Run → Text → List Token
unfolding next_run
scan run [] = close run
scan run (c ∷ s) = let (found, run') = next_run run c in found ++ scan run' s

unfoldable pub parse_version : Text → List Token
unfolding scan
parse_version raw = scan outside raw

-- Python's order of texts and of token pairs.
unfoldable pub refine : Ordering → Ordering → Ordering
refine Ordering.eq o = o
refine Ordering.lt o = Ordering.lt
refine Ordering.gt o = Ordering.gt

unfoldable pub compare_text : Text → Text → Ordering
unfolding refine
compare_text [] [] = Ordering.eq
compare_text [] (d ∷ t) = Ordering.lt
compare_text (c ∷ s) [] = Ordering.gt
compare_text (c ∷ s) (d ∷ t) = refine (compare c d) (compare_text s t)

unfoldable pub compare_token : Token → Token → Ordering
unfolding compare_text
compare_token (word v) (word w) = compare_text v w
compare_token (word v) (number n) = Ordering.lt
compare_token (number m) (word w) = Ordering.gt
compare_token (number m) (number n) = compare m n

-- Python's order of tuples of tokens.
unfoldable pub compare_tuple : List Token → List Token → Ordering
unfolding compare_token refine
compare_tuple [] [] = Ordering.eq
compare_tuple [] (y ∷ ys) = Ordering.lt
compare_tuple (x ∷ xs) [] = Ordering.gt
compare_tuple (x ∷ xs) (y ∷ ys) = refine (compare_token x y) (compare_tuple xs ys)

abbrev pub absent : Token
absent = number 0

unfoldable pub pad : ℕ → List Token → List Token
pad width xs = xs ++ replicate (width - length xs) absent

unfoldable pub compare_parsed : List Token → List Token → Ordering
unfolding compare_tuple pad
compare_parsed a b =
    let width = max (length a) (length b) in compare_tuple (pad width a) (pad width b)

unfoldable pub compare_versions : Text → Text → Ordering
unfolding parse_version compare_parsed
compare_versions left right = compare_parsed (parse_version left) (parse_version right)

-- `_OPS`: the operators of a constraint.
unfoldable pub is_lt : Ordering → Bool
is_lt Ordering.lt = true
is_lt _ = false

unfoldable pub is_eq : Ordering → Bool
is_eq Ordering.eq = true
is_eq _ = false

unfoldable pub is_gt : Ordering → Bool
is_gt Ordering.gt = true
is_gt _ = false

unfoldable pub ops : Text → Option (Ordering → Bool)
ops op =
    if text_eq op (codes "<")
    then some is_lt
    else if text_eq op (codes "<=")
    then some (λ c. not (is_gt c))
    else if text_eq op (codes ">")
    then some is_gt
    else if text_eq op (codes ">=")
    then some (λ c. not (is_lt c))
    else if text_eq op (codes "==")
    then some is_eq
    else if text_eq op (codes "!=")
    then some (λ c. not (is_eq c))
    else none

-- The two `ValueError`s, or the answer.
pub data Satisfied : Type 0 where
  unparseable : Text → Satisfied
  unsupported : Text → Satisfied
  answer : Bool → Satisfied

unfoldable pub is_number : Token → Bool
is_number (word w) = false
is_number (number n) = true

unfoldable pub apply_op : Text → Option (Ordering → Bool) → Ordering → Satisfied
apply_op op none c = unsupported op
apply_op op (some test) c = answer (test c)

unfoldable pub version_satisfies : Text → Text → Text → Satisfied
version_satisfies version op bound =
    if any is_number (parse_version version)
    then apply_op op (ops op) (compare_versions version bound)
    else unparseable version
