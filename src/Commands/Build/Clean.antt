-- ===== src/Commands/Build/Clean.antt =====
-- reconkg/commands.py: arguments without control characters, and the commands that such arguments make.
use Prim.Native.Nat.{◌%◌}
use reconkg.Base.{
  String, ℕ, zero, suc, ◌+◌, ◌/◌, false, ◌&&◌, none, some, List, [], ◌∷◌, ◌++◌, map, ltb, is_empty,
  any, take, All, All-append, ◌≡◌, refl, arith, Bool-cases, inl, inr,
}
use reconkg.Base.Text.{Text, codes, lstrip, rstrip, strip, is_space, join}
use reconkg.Commands.{
  Category, member, Command, Result, ok, err, ◌>>=◌, never_composed, is_control, clean_argv,
  clean_optional, checked, make_command, coerce_category, composed,
}
use reconkg.Commands.Validate.{
  blank_control, flush, split_words, feed_argument, show_digits, show_number,
}
use reconkg.Commands.Build.{one}
use reconkg.Commands.Build.Sound.{IsSound}

-- What holds of a result, which is not a refusal.
abbrev pub Yields : {A : Type 0} → (A → Type 0) → Result A → Type 0
Yields P (ok a) = P a
Yields P (err e) = ⊥

pub Yields-bind :
    {A B : Type 0} (P : A → Type 0) (Q : B → Type 0) (m : Result A) (f : A → Result B)
    → Yields P m
    → ((a : A) → P a → Yields Q (f a))
    → Yields Q (m >>= f)
Yields-bind P Q (ok a) f h k = k a h
Yields-bind P Q (err e) f h k = elim h [ ]

pub Yields-ok :
    {A : Type 0} (P : A → Type 0) (m : Result A) → Yields P m → (a : A) × (m ≡ ok a) × P a
Yields-ok P (ok a) h = (a, refl, h)
Yields-ok P (err e) h = elim h [ ]

pub one-Yields : (m : Result Command) → Yields IsSound m → Yields (All IsSound) (one m)
one-Yields (ok c) h = (h, tt)
one-Yields (err e) h = elim h [ ]

abbrev pub IsInk : ℕ → Type 0
IsInk c = is_control c ≡ false

abbrev pub IsClean : Text → Type 0
IsClean = All IsInk

any-IsClean : (s : Text) → IsClean s → any is_control s ≡ false
any-IsClean [] h = refl
any-IsClean (c ∷ s) (p, h) = rw (p, any-IsClean s h)

pub any-any-IsClean : (argv : List Text) → All IsClean argv → any (any is_control) argv ≡ false
any-any-IsClean [] h = refl
any-any-IsClean (s ∷ argv) (p, h) = rw (any-IsClean s p, any-any-IsClean argv h)

-- A category that may be composed, with clean arguments, makes a command.
pub make_command-argv :
    (tool : Text) (c : Category) (argv : List Text) (source : Text)
    → never_composed c ≡ false
    → All IsClean argv
    → Yields IsSound (make_command tool (member c) (some argv) [] source)
unfolding make_command coerce_category clean_optional clean_argv checked composed
make_command-argv tool c argv source n h =
    rw (any-any-IsClean argv h, n)
      (record { boundary = rw n refl; named = refl; clean = any-any-IsClean argv h })

-- A reference that is not empty makes a command of any category.
pub make_command-named :
    (tool : Text) (c : Category) (reference source : Text)
    → is_empty reference ≡ false
    → Yields IsSound (make_command tool (member c) none reference source)
unfolding make_command coerce_category clean_optional checked composed
make_command-named tool c reference source h = elim (Bool-cases (never_composed c)) [
  | inl e ↦ rw (e, h) (record { boundary = rw e refl; named = h; clean = refl })
  | inr e ↦ rw (e, h) (record { boundary = rw e refl; named = h; clean = refl })
]

All-take {ℓ} : (P : ℕ → Type ℓ) (n : ℕ) (s : Text) → All P s → All P (take n s)
All-take P zero s h = tt
All-take P (suc n) [] h = tt
All-take P (suc n) (c ∷ s) (p, h) = (p, All-take P n s h)

All-lstrip {ℓ} : (P : ℕ → Type ℓ) (s : Text) → All P s → All P (lstrip s)
unfolding lstrip
All-lstrip P [] h = tt
All-lstrip P (c ∷ s) (p, h) = elim (Bool-cases (is_space c)) [
  | inl e ↦ rw e (All-lstrip P s h)
  | inr e ↦ rw e (p, h)
]

All-rstrip {ℓ} : (P : ℕ → Type ℓ) (s : Text) → All P s → All P (rstrip s)
unfolding rstrip
All-rstrip P [] h = tt
All-rstrip P (c ∷ s) (p, h) = elim (Bool-cases (is_empty (rstrip s) && is_space c)) [
  | inl e ↦ rw e tt
  | inr e ↦ rw e (p, All-rstrip P s h)
]

All-join {ℓ} :
    (P : ℕ → Type ℓ) (glue : Text) (words : List Text)
    → All P glue
    → All (All P) words
    → All P (join glue words)
unfolding join
All-join P glue [] g h = tt
All-join P glue (w ∷ []) g (p, h) = p
All-join P glue (w ∷ v ∷ words) g (p, h) =
    All-append P w (glue ++ join glue (v ∷ words)) p
      (All-append P glue (join glue (v ∷ words)) g (All-join P glue (v ∷ words) g h))

blank_control-IsInk : (c : ℕ) → IsInk (blank_control c)
unfolding blank_control is_control
blank_control-IsInk c = ground arith

map-blank-IsClean : (s : Text) → IsClean (map blank_control s)
map-blank-IsClean [] = tt
map-blank-IsClean (c ∷ s) = (blank_control-IsInk c, map-blank-IsClean s)

flush-IsClean : (word : Text) → IsClean word → All IsClean (flush word)
unfolding flush
flush-IsClean [] h = tt
flush-IsClean (c ∷ s) h = (h, tt)

split_words-IsClean : (word s : Text) → IsClean word → IsClean s → All IsClean (split_words word s)
unfolding split_words
split_words-IsClean word [] h k = flush-IsClean word h
split_words-IsClean word (c ∷ s) h (p, k) = elim (Bool-cases (is_space c)) [
  | inl e ↦ rw e (
      All-append IsClean (flush word) (split_words [] s) (flush-IsClean word h)
        (split_words-IsClean [] s tt k))
  | inr e ↦
      rw e (split_words-IsClean (word ++ c ∷ []) s (All-append IsInk word (c ∷ []) h (p, tt)) k)
]

-- Prose that becomes an argument is clean, whatever it was.
pub feed_argument-IsClean : (text : Text) (limit : ℕ) → IsClean (feed_argument text limit)
unfolding feed_argument strip
feed_argument-IsClean text limit =
    All-rstrip IsInk
      (lstrip (take limit (join (codes " ") (split_words [] (map blank_control text)))))
      (All-lstrip IsInk (take limit (join (codes " ") (split_words [] (map blank_control text)))) (
        All-take IsInk limit (join (codes " ") (split_words [] (map blank_control text))) (
          All-join IsInk (codes " ") (split_words [] (map blank_control text))
            (unfold is_control in (refl, tt))
            (split_words-IsClean [] (map blank_control text) tt (map-blank-IsClean text)))))

digit-IsInk : (n : ℕ) → IsInk (b'0' + n % 10)
unfolding is_control
digit-IsInk n = ground arith

show_digits-IsClean : (fuel n : ℕ) (rest : Text) → IsClean rest → IsClean (show_digits fuel n rest)
unfolding show_digits
show_digits-IsClean zero n rest h = h
show_digits-IsClean (suc fuel) n rest h = elim (Bool-cases (ltb n 10)) [
  | inl e ↦ rw e (digit-IsInk n, h)
  | inr e ↦ rw e (show_digits-IsClean fuel (n / 10) ((b'0' + n % 10) ∷ rest) (digit-IsInk n, h))
]

pub show_number-IsClean : (n : ℕ) → IsClean (show_number n)
unfolding show_number
show_number-IsClean n = show_digits-IsClean (suc n) n [] tt

show_digits-filled : (fuel n c : ℕ) (rest : Text) → is_empty (show_digits fuel n (c ∷ rest)) ≡ false
unfolding show_digits
show_digits-filled zero n c rest = refl
show_digits-filled (suc fuel) n c rest = elim (Bool-cases (ltb n 10)) [
  | inl e ↦ rw e refl
  | inr e ↦ rw e (show_digits-filled fuel (n / 10) (b'0' + n % 10) (c ∷ rest))
]

pub show_number-filled : (n : ℕ) → is_empty (show_number n) ≡ false
unfolding show_number show_digits
show_number-filled n = elim (Bool-cases (ltb n 10)) [
  | inl e ↦ rw e refl
  | inr e ↦ rw e (show_digits-filled n (n / 10) (b'0' + n % 10) [])
]

is_control-IsClean : (s : Text) → any is_control s ≡ false → IsClean s
is_control-IsClean [] h = tt
is_control-IsClean (c ∷ s) h = (ground (arith, h), is_control-IsClean s (ground (arith, h)))

pub literal : (s : String) → any is_control (codes s) ≡ false → IsClean (codes s)
literal s h = is_control-IsClean (codes s) h
