-- ===== src/Cpe/Infer.antt =====
-- reconkg/cpe.py: `infer_cpe`, a CPE name from the product text of a fingerprint.
use reconkg.Base.{Option, none, some, List, [], ◌∷◌, if◌then◌else◌}
use reconkg.Base.Text.{Text, codes, contains, lower, strip}
use reconkg.Cpe.{Cpe, any_value}

pub record KnownProduct : Type 0 where
  pub pattern_text : Text
  pub vendor : Text
  pub product : Text

abbrev known : Text → Text → Text → KnownProduct
known p v q = record { pattern_text = p; vendor = v; product = q }

abbrev pub known_products : List KnownProduct
known_products =
    known (codes "apache tomcat") (codes "apache") (codes "tomcat")
    ∷ known (codes "apache httpd") (codes "apache") (codes "http_server")
    ∷ known (codes "microsoft iis") (codes "microsoft") (codes "internet_information_services")
    ∷ known (codes "isc bind") (codes "isc") (codes "bind")
    ∷ known (codes "postgresql") (codes "postgresql") (codes "postgresql")
    ∷ known (codes "openssh") (codes "openbsd") (codes "openssh")
    ∷ known (codes "openssl") (codes "openssl") (codes "openssl")
    ∷ known (codes "proftpd") (codes "proftpd") (codes "proftpd")
    ∷ known (codes "postfix") (codes "postfix") (codes "postfix")
    ∷ known (codes "vsftpd") (codes "beasts") (codes "vsftpd")
    ∷ known (codes "samba") (codes "samba") (codes "samba")
    ∷ known (codes "nginx") (codes "f5") (codes "nginx")
    ∷ known (codes "mysql") (codes "oracle") (codes "mysql")
    ∷ []

-- `(version or ANY).lower()`.
unfoldable pub inferred_version : Option Text → Text
inferred_version none = any_value
inferred_version (some []) = any_value
inferred_version (some (c ∷ s)) = lower (c ∷ s)

abbrev pub application : KnownProduct → Text → Cpe
application k version = record {
  part = codes "a";
  vendor = k.vendor;
  product = k.product;
  version = version;
  update = any_value;
  edition = any_value;
  language = any_value;
  sw_edition = any_value;
  target_sw = any_value;
  target_hw = any_value;
  other = any_value;
}

unfoldable pub first_known : List KnownProduct → Text → Option KnownProduct
first_known [] name = none
first_known (k ∷ ks) name = if contains k.pattern_text name then some k else first_known ks name

unfoldable pub infer_named : Option KnownProduct → Option Text → Option Cpe
infer_named none version = none
infer_named (some k) version = some (application k (inferred_version version))

unfoldable pub infer_cpe : Option Text → Option Text → Option Cpe
unfolding infer_named
infer_cpe none version = none
infer_cpe (some []) version = none
infer_cpe (some (c ∷ s)) version =
    infer_named (first_known known_products (lower (strip (c ∷ s)))) version
