-- ===== src/Auth/Address.antt =====
-- reconkg/auth.py: `validate_address`. `str(ipaddress.ip_address(x))` is the parameter `parse_ip`, nothing
-- where it raises.
use reconkg.Base.{
  ℕ, Bool, true, false, All, ◌&&◌, ◌||◌, not, Option, none, some, [], ◌∷◌, if◌then◌else◌, ◌==◌, leb,
  ltb, is_empty, any, all, length, ◌≡◌, arith, Bool-cases, inl, inr,
}
use reconkg.Base.Text.{Text, lower, lower_char, strip}
use reconkg.Commands.{is_control}
use reconkg.Commands.Validate.{is_alnum}
use reconkg.Commands.Build.Clean.{IsInk, IsClean}
use reconkg.Auth.Load.{split_on}

unfoldable pub is_host_char : ℕ → Bool
unfolding is_alnum
is_host_char c = is_alnum c || c == b'-'

unfoldable pub ends_dash : Text → Bool
ends_dash [] = false
ends_dash (c ∷ []) = c == b'-'
ends_dash (c ∷ d ∷ s) = ends_dash (d ∷ s)

-- `(?!-)[A-Za-z0-9-]{1,63}(?<!-)`.
unfoldable pub is_label : Text → Bool
is_label [] = false
is_label (c ∷ s) =
    not (c == b'-')
    && all is_host_char (c ∷ s)
    && leb (length (c ∷ s)) 63
    && not (ends_dash (c ∷ s))

-- The text without one `.` at its end.
unfoldable pub drop_dot : Text → Text
drop_dot [] = []
drop_dot (c ∷ []) = if c == b'.' then [] else c ∷ []
drop_dot (c ∷ d ∷ s) = c ∷ drop_dot (d ∷ s)

-- `_HOSTNAME`.
unfoldable pub is_hostname : Text → Bool
is_hostname text = leb (length text) 253 && all is_label (split_on b'.' (drop_dot text))

unfoldable pub is_low : ℕ → Bool
is_low c = ltb c 32 || c == 127

-- The characters that `ipaddress` writes of its own: lower-case hexadecimal digits, `:` and `.`.
abbrev pub is_address_char : ℕ → Bool
is_address_char c =
    (leb b'0' c && leb c b'9') || (leb b'a' c && leb c b'f') || c == b':' || c == b'.'

-- What is relied on of `str(ipaddress.ip_address(t))`: a character of the text that it gives is one of `t`, as
-- those of a scope behind `%` are, line breaks included, or one that it writes of its own.
abbrev pub IsAddressText : Text → Text → Type 0
IsAddressText t = All (λ c. (any (λ d. d == c) t || is_address_char c) ≡ true)

module _ (parse_ip : Text → Option Text) where
  unfoldable pub or_hostname : Text → Option Text → Option Text
  or_hostname candidate (some address) = some address
  or_hostname candidate none = if is_hostname candidate then some (lower candidate) else none

  unfoldable pub validate_candidate : Text → Option Text
  validate_candidate candidate =
      if is_empty candidate || ltb 253 (length candidate)
      then none
      else if any is_low candidate
      then none
      else or_hostname candidate (parse_ip candidate)

  -- `validate_address`: nothing where it raises.
  unfoldable pub validate_address : Text → Option Text
  validate_address raw = validate_candidate (strip raw)

  lower_char-IsInk : (c : ℕ) → is_low c ≡ false → IsInk (lower_char c)
  unfolding is_low lower_char is_control
  lower_char-IsInk c h = ground (arith, h)

  lower-IsClean : (s : Text) → any is_low s ≡ false → IsClean (lower s)
  unfolding lower
  lower-IsClean [] h = tt
  lower-IsClean (c ∷ s) h =
      (lower_char-IsInk c (ground (arith, h)), lower-IsClean s (ground (arith, h)))

  occurs-IsInk : (t : Text) (c : ℕ) → any (λ d. d == c) t ≡ true → any is_low t ≡ false → IsInk c
  unfolding is_low is_control
  occurs-IsInk [] c o h = cc
  occurs-IsInk (d ∷ t) c o h = elim (Bool-cases (d == c)) [
    | inl e ↦ ground (arith, h, e)
    | inr e ↦ occurs-IsInk t c (ground (arith, o, e)) (ground (arith, h))
  ]

  address_char-IsInk : (c : ℕ) → is_address_char c ≡ true → IsInk c
  unfolding is_address_char is_control
  address_char-IsInk c h = ground (arith, h)

  address_text-IsClean : (t a : Text) → IsAddressText t a → any is_low t ≡ false → IsClean a
  address_text-IsClean t [] h n = tt
  address_text-IsClean t (c ∷ a) (o, h) n = elim (Bool-cases (any (λ d. d == c) t)) [
    | inl e ↦ (occurs-IsInk t c e n, address_text-IsClean t a h n)
    | inr e ↦ (address_char-IsInk c (ground (arith, o, e)), address_text-IsClean t a h n)
  ]

  or_hostname-IsClean :
      (candidate address : Text) (o : Option Text)
      → ((a : Text) → o ≡ some a → IsAddressText candidate a)
      → any is_low candidate ≡ false
      → or_hostname candidate o ≡ some address
      → IsClean address
  unfolding or_hostname
  or_hostname-IsClean candidate address (some a) ip n h =
      address_text-IsClean candidate address (ip address h) n
  or_hostname-IsClean candidate address none ip n h = elim (Bool-cases (is_hostname candidate)) [
    | inl e ↦
        let same : lower candidate ≡ address = ground (arith, h, e) in
        rw (← same) (lower-IsClean candidate n)
    | inr e ↦ absurd (ground (arith, h, e))
  ]

  -- An address that is validated has no NUL and no line break, whatever was given, if `ipaddress` writes an
  -- address with characters of the text that it read and those of `is_address_char` only.
  pub validate_address-IsClean :
      ((t a : Text) → parse_ip t ≡ some a → IsAddressText t a)
      → (raw address : Text) → validate_address raw ≡ some address
      → IsClean address
  unfolding validate_address validate_candidate
  validate_address-IsClean ip raw address h = elim (Bool-cases (any is_low (strip raw))) [
    | inl e ↦ absurd (ground (arith, h, e))
    | inr e ↦
        or_hostname-IsClean (strip raw) address (parse_ip (strip raw)) (ip (strip raw)) e
          (ground (arith, h, e))
  ]
