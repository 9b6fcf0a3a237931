-- ===== src/Commands/Validate.antt =====
-- reconkg/commands.py: the validators of identifiers that come from a feed, and the cleaning of prose
-- that becomes an argument.
use reconkg.Base.{
  ℕ, zero, suc, ◌+◌, ◌-◌, ◌/◌, Bool, false, ◌&&◌, ◌||◌, List, [], ◌∷◌, ◌++◌, if◌then◌else◌, ◌==◌,
  leb, ltb, length, take, drop, all, map,
}
use Prim.Native.Nat.{◌%◌}
use reconkg.Base.Text.{Text, ends_with, codes, text_eq, lower, strip, is_space, join}
use reconkg.Commands.{Result, ok, err, boundary_violation}

unfoldable pub is_ascii_digit : ℕ → Bool
is_ascii_digit c = leb b'0' c && leb c b'9'

unfoldable pub is_alnum : ℕ → Bool
unfolding is_ascii_digit
is_alnum c = leb b'A' c && leb c b'Z' || leb b'a' c && leb c b'z' || is_ascii_digit c

-- `[A-Za-z0-9_./-]` and `[A-Za-z0-9_.-]`.
unfoldable pub is_path_char : ℕ → Bool
unfolding is_alnum
is_path_char c = is_alnum c || c == b'_' || c == b'.' || c == b'/' || c == b'-'

unfoldable pub is_script_char : ℕ → Bool
unfolding is_alnum
is_script_char c = is_alnum c || c == b'_' || c == b'.' || c == b'-'

-- One character of the first class, then at most `most` of the second, to the end of the text.
unfoldable pub full_match : (ℕ → Bool) → (ℕ → Bool) → ℕ → Text → Bool
full_match first rest most [] = false
full_match first rest most (c ∷ s) = first c && all rest s && leb (length s) most

unfoldable pub or_violation : Bool → Text → Result Text
or_violation good text = if good then ok text else err boundary_violation

unfoldable pub validate_module_path : Text → Result Text
unfolding or_violation
validate_module_path path =
    let text = strip path in or_violation (full_match is_alnum is_path_char 255 text) text

-- The suffix that a script may have.
abbrev pub nse : Text
nse = codes ".nse"

-- The `while` loop of `validate_script_name`; each round takes four characters, so the length of the
-- text is enough fuel.
unfoldable pub drop_nse : ℕ → Text → Text
drop_nse zero text = text
drop_nse (suc fuel) text =
    let rest = drop_nse fuel (strip (take (length text - 4) text)) in
    if ends_with nse (lower text) then rest else text

unfoldable pub script_text : Text → Text
script_text script = let text = strip script in drop_nse (length text) text

unfoldable pub validate_script_name : Text → Result Text
unfolding or_violation
validate_script_name script =
    or_violation (full_match is_alnum is_script_char 63 (script_text script)) (script_text script)

-- `text[:4].upper() == "EDB-"`, on the lower case of both.
unfoldable pub edb_text : Text → Text
edb_text id =
    let text = strip id in
    if text_eq (lower (take 4 text)) (codes "edb-") then strip (drop 4 text) else text

unfoldable pub validate_edb_id : Text → Result Text
unfolding or_violation
validate_edb_id id =
    or_violation (full_match is_ascii_digit is_ascii_digit 8 (edb_text id)) (edb_text id)

-- `[\x00-\x1f\x7f]` to a space.
unfoldable pub blank_control : ℕ → ℕ
blank_control c = if ltb c 32 || c == 127 then 32 else c

-- `text.split()`: the maximal runs without a space; `word` is the run so far.
unfoldable pub flush : Text → List Text
flush [] = []
flush (c ∷ s) = (c ∷ s) ∷ []

unfoldable pub split_words : Text → Text → List Text
unfolding flush is_space
split_words word [] = flush word
split_words word (c ∷ s) =
    (if is_space c then flush word else [])
    ++ split_words (if is_space c then [] else word ++ c ∷ []) s

unfoldable pub feed_argument : Text → ℕ → Text
unfolding blank_control split_words join strip
feed_argument text limit =
    strip (take limit (join (codes " ") (split_words [] (map blank_control text))))

-- `str(n)` of a number.
unfoldable pub show_digits : ℕ → ℕ → Text → Text
show_digits zero n rest = rest
show_digits (suc fuel) n rest =
    let here = (b'0' + n % 10) ∷ rest in
    let more = show_digits fuel (n / 10) here in if ltb n 10 then here else more

unfoldable pub show_number : ℕ → Text
unfolding show_digits
show_number n = show_digits (suc n) n []
