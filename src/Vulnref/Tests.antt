-- ===== src/Vulnref/Tests.antt =====
-- Runs of `VulnEntry.matches` of reconkg/vulnref.py.
use reconkg.Base.{true, false, none, some, ◌≡◌, ◌↔◌}
use reconkg.Base.Text.{codes}
use reconkg.Vulnref.{Claim, entry_matches, observed_cpe}
use reconkg.Vulnref.Matching.{EntryApplies, entry_matches_iff}
use reconkg.Vulnref.Reference.{heartbleed, heartbleed_unreachable}

-- An OpenSSL that the advisory names.
abbrev openssl : Claim
openssl = record { product = some (codes "OpenSSL"); version = some (codes "1.0.1f"); cpe = none }

entry_matches_iff_example :
    ((entry_matches heartbleed openssl).matched ≡ true)
    ↔ EntryApplies heartbleed openssl (observed_cpe openssl)
entry_matches_iff_example = entry_matches_iff heartbleed openssl

heartbleed_unreachable_example : (entry_matches heartbleed openssl).matched ≡ false
heartbleed_unreachable_example = heartbleed_unreachable openssl
