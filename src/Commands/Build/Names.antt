-- ===== src/Commands/Build/Names.antt =====
-- reconkg/commands.py: a validated script name, validated again.
use reconkg.Base.{
  ℕ, zero, suc, ◌-◌, ◌≤◌, Bool, true, false, ◌&&◌, [], ◌∷◌, is_empty, all, take, length, All, ◌≡◌,
  refl, ap, arith, Bool-cases, inl, inr,
}
use reconkg.Base.Text.{Text, lower, lstrip, rstrip, strip, is_space, ends_with}
use reconkg.Commands.{ok, is_control}
use reconkg.Commands.Validate.{
  is_alnum, is_ascii_digit, is_script_char, full_match, or_violation, nse, drop_nse, script_text,
  validate_script_name,
}
use reconkg.Commands.Build.Clean.{IsInk, IsClean}

length-take_le : (n : ℕ) (s : Text) → length (take n s) ≤ n
length-take_le zero s = omega arith
length-take_le (suc n) [] = omega arith
length-take_le (suc n) (c ∷ s) = omega (arith, length-take_le n s)

length-lstrip : (s : Text) → length (lstrip s) ≤ length s
unfolding lstrip
length-lstrip [] = omega arith
length-lstrip (c ∷ s) = elim (Bool-cases (is_space c)) [
  | inl e ↦ rw e (omega (arith, length-lstrip s))
  | inr e ↦ rw e (omega arith)
]

length-rstrip : (s : Text) → length (rstrip s) ≤ length s
unfolding rstrip
length-rstrip [] = omega arith
length-rstrip (c ∷ s) = elim (Bool-cases (is_empty (rstrip s) && is_space c)) [
  | inl e ↦ rw e (omega arith)
  | inr e ↦ rw e (omega (arith, length-rstrip s))
]

length-strip : (s : Text) → length (strip s) ≤ length s
unfolding strip
length-strip s = omega (arith, length-rstrip (lstrip s), length-lstrip s)

length-lower : (s : Text) → length (lower s) ≡ length s
unfolding lower
length-lower [] = refl
length-lower (c ∷ s) = ap suc (length-lower s)

ends_with-length : (s : Text) → ends_with nse (lower s) ≡ true → 4 ≤ length s
unfolding ends_with
ends_with-length s h = ground (arith, h, length-lower s)

-- The loop has ended once it has as much fuel as the text has characters.
drop_nse-ends :
    (fuel : ℕ) (s : Text) → length s ≤ fuel → ends_with nse (lower (drop_nse fuel s)) ≡ false
unfolding drop_nse
drop_nse-ends zero [] h = unfold ends_with lower in refl
drop_nse-ends zero (c ∷ s) h = absurd (omega arith)
drop_nse-ends (suc fuel) s h = elim (Bool-cases (ends_with nse (lower s))) [
  | inl e ↦ rw e (
      drop_nse-ends fuel (strip (take (length s - 4) s)) (
        omega (
          arith,
          h,
          ends_with-length s e,
          length-strip (take (length s - 4) s),
          length-take_le (length s - 4) s,
        )))
  | inr e ↦ rw e e
]

drop_nse-fixed : (fuel : ℕ) (s : Text) → ends_with nse (lower s) ≡ false → drop_nse fuel s ≡ s
unfolding drop_nse
drop_nse-fixed zero s h = refl
drop_nse-fixed (suc fuel) s h = rw h refl

-- A character of a name: no space, and no control character.
record IsNameChar (c : ℕ) : Type 0 where
  solid : is_space c ≡ false
  ink : IsInk c

test-IsNameChar : (c : ℕ) → is_script_char c ≡ true → IsNameChar c
unfolding is_script_char is_alnum is_ascii_digit is_space is_control
test-IsNameChar c h = record { solid = ground (arith, h); ink = ground (arith, h) }

alnum_script : (c : ℕ) → is_alnum c ≡ true → is_script_char c ≡ true
unfolding is_script_char
alnum_script c h = rw h refl

All-IsNameChar : (s : Text) → all is_script_char s ≡ true → All IsNameChar s
All-IsNameChar [] h = tt
All-IsNameChar (c ∷ s) h =
    (test-IsNameChar c (ground (arith, h)), All-IsNameChar s (ground (arith, h)))

full_match-All : (s : Text) → full_match is_alnum is_script_char 63 s ≡ true → All IsNameChar s
unfolding full_match
full_match-All [] h = tt
full_match-All (c ∷ s) h =
    (test-IsNameChar c (alnum_script c (ground (arith, h))), All-IsNameChar s (ground (arith, h)))

lstrip-solid : (s : Text) → All IsNameChar s → lstrip s ≡ s
unfolding lstrip
lstrip-solid [] h = refl
lstrip-solid (c ∷ s) (p, h) = rw p.solid refl

rstrip-solid : (s : Text) → All IsNameChar s → rstrip s ≡ s
unfolding rstrip
rstrip-solid [] h = refl
rstrip-solid (c ∷ s) (p, h) = rw (rstrip-solid s h, p.solid) (ground arith)

strip-solid : (s : Text) → All IsNameChar s → strip s ≡ s
unfolding strip
strip-solid s h = rw (lstrip-solid s h) (rstrip-solid s h)

All-IsInk : (s : Text) → All IsNameChar s → IsClean s
All-IsInk [] h = tt
All-IsInk (c ∷ s) (p, h) = (p.ink, All-IsInk s h)

-- A name that the validator gives: clean, and one that it gives for itself.
pub record IsName (name : Text) : Type 0 where
  pub clean : IsClean name
  pub again : validate_script_name name ≡ ok name

or_violation_inv :
    (good : Bool) (text name : Text)
    → or_violation good text ≡ ok name
    → (good ≡ true) × (text ≡ name)
unfolding or_violation
or_violation_inv good text name h = ground (arith, h)

script_text-ends : (script : Text) → ends_with nse (lower (script_text script)) ≡ false
unfolding script_text
script_text-ends script = drop_nse-ends (length (strip script)) (strip script) (omega arith)

text-IsName :
    (name : Text)
    → full_match is_alnum is_script_char 63 name ≡ true
    → ends_with nse (lower name) ≡ false
    → IsName name
unfolding validate_script_name script_text or_violation
text-IsName name h k = record {
  clean = All-IsInk name (full_match-All name h);
  again = rw (strip-solid name (full_match-All name h), drop_nse-fixed (length name) name k, h);
}

pub validate_script_name-IsName :
    (script name : Text) → validate_script_name script ≡ ok name → IsName name
unfolding validate_script_name
validate_script_name-IsName script name h =
    let (good, same) =
      or_violation_inv (full_match is_alnum is_script_char 63 (script_text script))
        (script_text script) name h in
    rw (← same) (text-IsName (script_text script) good (script_text-ends script))
