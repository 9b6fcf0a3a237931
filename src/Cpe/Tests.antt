-- ===== src/Cpe/Tests.antt =====
-- Runs of reconkg/cpe.py.
use reconkg.Base.{
  true, false, none, some, List, [], ◌∷◌, ◌≡◌, ◌≢◌, ◌↔◌, refl, Ordering, arith, All, any,
}
use reconkg.Base.Text.{Text, codes, is_space, lower_char}
use reconkg.Cpe.Escape.{EndsInk}
use reconkg.Version.{compare_versions}
use reconkg.Cpe.{Cpe, any_value, parse, to_text}
use reconkg.Cpe.RoundTrip.{IsPrintable, parse-to_text}
use reconkg.Cpe.Stable.{parse-IsPrintable}
use reconkg.Cpe.Applicability.{CpeRange, MatchMethod, cpe_range, matches, within_window}
use reconkg.Cpe.Applicability.Decision.{Applies, Stands, matches_iff, matches-method}

abbrev httpd : Text → Cpe
httpd v = record {
  part = codes "a";
  vendor = codes "apache";
  product = codes "http:server";
  version = v;
  update = any_value;
  edition = any_value;
  language = any_value;
  sw_edition = any_value;
  target_sw = any_value;
  target_hw = any_value;
  other = any_value;
}

-- From 2.4.17, included, to 2.4.39, excluded.
abbrev window : CpeRange
window = record {
  cpe = httpd any_value;
  version_start_including = some (codes "2.4.17");
  version_start_excluding = none;
  version_end_including = none;
  version_end_excluding = some (codes "2.4.39");
  vulnerable = true;
}

text :
    to_text (httpd (codes "2.4.20")) ≡ codes "cpe:2.3:a:apache:http\\:server:2.4.20:*:*:*:*:*:*:*"
unfolding to_text
text = refl

abbrev raw : Text
raw = codes " CPE:/a:Apache:http\\:server:2.4.20 "

parsed : parse (some raw) ≡ some (httpd (codes "2.4.20"))
unfolding parse reconkg.Base.Text.strip reconkg.Cpe.parse_stripped reconkg.Base.Text.starts_with
    reconkg.Base.Text.lower reconkg.Cpe.checked_parts reconkg.Cpe.split_escaped
    reconkg.Cpe.from_parts reconkg.Cpe.unescape
parsed = refl

other_ends : EndsInk any_value
unfolding is_space
other_ends = refl

httpd-IsPrintable : IsPrintable (httpd (codes "2.4.20"))
httpd-IsPrintable = parse-IsPrintable raw (httpd (codes "2.4.20")) parsed other_ends

parse-to_text_example :
    parse (some (to_text (httpd (codes "2.4.20")))) ≡ some (httpd (codes "2.4.20"))
parse-to_text_example = parse-to_text (httpd (codes "2.4.20")) httpd-IsPrintable

matches_iff_example :
    ((matches window (httpd (codes "2.4.20"))).matched ≡ true)
    ↔ Applies window (httpd (codes "2.4.20"))
matches_iff_example = matches_iff window (httpd (codes "2.4.20"))

by_range : (matches window (httpd (codes "2.4.20"))).method ≡ some cpe_range
unfolding matches reconkg.Cpe.Applicability.attribute_matches
    reconkg.Cpe.Applicability.match_version reconkg.Cpe.has_version
    reconkg.Cpe.Applicability.has_window within_window compare_versions
by_range = refl

matches-method_example : Stands cpe_range window (httpd (codes "2.4.20"))
matches-method_example = matches-method window (httpd (codes "2.4.20")) cpe_range by_range

inside : (v : Text) → v ≡ codes "2.4.17" → (within_window window v).0 ≡ true
unfolding within_window compare_versions
inside v e = rw e refl

inside_last : (within_window window (codes "2.4.38")).0 ≡ true
unfolding within_window compare_versions
inside_last = refl

above_first : compare_versions (codes "2.4.20") (codes "2.4.17") ≢ Ordering.lt
unfolding compare_versions
above_first h = ground arith

below_last : compare_versions (codes "2.4.20") (codes "2.4.38") ≢ Ordering.gt
unfolding compare_versions
below_last h = ground arith
