-- ===== src/Ips/Identity.antt =====
-- apps/ips/services.py and models.py: `normalize_ip`, `version_of` and the freshness of a lookup.
pub mod Laws
pub mod Total
use ip_scout.Prelude.{
  ℕ, ◌≡◌, refl, Bool, true, false, Option, none, some, List, [], ◌∷◌, Text, ◌==◌, leb, codes,
  filter, if◌then◌else◌,
}
use ip_scout.Errors.{Outcome, ok, raise, value_error}
use ip_scout.Python.Strip.{strip}
use ip_scout.Python.Ipaddress.{Address}
use ip_scout.Python.Ipaddress.Network.{ip_address, print_address, version}
use ip_scout.Models.{Time, IpAddress, Db}

unfoldable pub normalize_ip : Text → Outcome Text
unfolding ip_address print_address strip
normalize_ip raw = elim (ip_address (strip raw)) [
  | none ↦ raise value_error
  | some a ↦ ok (print_address a)
]

-- IPAddress.version_of
unfoldable pub version_of : Text → Outcome ℕ
unfolding ip_address version
version_of address = elim (ip_address address) [
  | none ↦ raise value_error
  | some a ↦ ok (version a)
]

-- The freshness window is over, or the address was never checked.
abbrev due : Time → Option Time → Bool
due now none = true
due now (some next) = leb next now

unfoldable pub needs_whois_check : Time → IpAddress → Bool
needs_whois_check now ip = due now ip.whois_next_check_at

unfoldable pub whois_pending_queryset : Time → Db → List IpAddress
unfolding needs_whois_check filter
whois_pending_queryset now db = filter (needs_whois_check now) db.ips
