-- ===== src/Auth/Samples.antt =====
-- A reader of one address, as `ipaddress` reads it, to run the programs with.
use reconkg.Base.{
  Option, none, some, if◌then◌else◌, ◌≡◌, refl, subst, sym, Bool-cases, inl, inr, arith,
}
use reconkg.Base.Text.{Text, codes, text_eq, eq_of_text_eq}
use reconkg.Auth.Address.{IsAddressText}

abbrev pub given_address : Text
given_address = codes "FE80::1%eth0"

abbrev pub sample_address : Text
sample_address = codes "fe80::1%eth0"

abbrev pub sample_ip : Text → Option Text
sample_ip t = if text_eq t given_address then some sample_address else none

address_read : IsAddressText given_address sample_address
address_read = (
  refl,
  (refl, (refl, (refl, (refl, (refl, (refl, (refl, (refl, (refl, (refl, (refl, tt))))))))))),
)

pub sample_ip-IsAddressText : (t a : Text) → sample_ip t ≡ some a → IsAddressText t a
sample_ip-IsAddressText t a h = elim (Bool-cases (text_eq t given_address)) [
  | inl e ↦
      let same : sample_address ≡ a = ground (arith, h, e) in
      subst (λ u. IsAddressText u a) (sym (eq_of_text_eq t given_address e))
        (subst (λ b. IsAddressText given_address b) same address_read)
  | inr e ↦ absurd (ground (arith, h, e))
]
