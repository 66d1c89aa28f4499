-- ===== src/Iran/Classify.antt =====
-- apps/iran/services.py: `IranCIDRService.classify`.
pub mod Laws
use ip_scout.Prelude.{
  ℕ, Bool, true, false, not, ◌&&◌, ◌||◌, Option, none, some, List, [], ◌∷◌, ◌++◌, Text, ◌==◌,
  filter, text_eq, update_where, is_some, codes, if◌then◌else◌,
}
use ip_scout.Errors.{Outcome, ok, raise, ◌>>=◌}
use ip_scout.Models.{Time, Float, one, half, IpAddress, IpCountryHistory, CountryNetwork, Db}
use ip_scout.Models.Tables.{update_ip}
use ip_scout.Iran.{iran_country_code}
use ip_scout.Iran.Match.{Contains, find_matching_cidr}

-- The four values that the branches of `classify` set.
pub record Verdict : Type 0 where
  pub is_iran : Bool
  pub cidr : Option Text
  pub source : Text
  pub confidence : Float

unfoldable pub verdict : Option CountryNetwork → Text → Verdict
unfolding text_eq
verdict (some n) whois_country = record {
  is_iran = true;
  cidr = some n.cidr;
  source = n.source;
  confidence = one;
}
verdict none whois_country =
    if text_eq whois_country iran_country_code
    then record { is_iran = true; cidr = none; source = codes "whois"; confidence = half }
    else record { is_iran = false; cidr = none; source = []; confidence = one }

abbrev pub same_bool : Bool → Bool → Bool
same_bool true b = b
same_bool false b = not b

abbrev pub same_cidr : Option Text → Option Text → Bool
same_cidr none none = true
same_cidr (some a) (some b) = text_eq a b
same_cidr _ _ = false

-- new_is_iran != ip.is_iran or new_cidr != ip.iran_match_cidr
unfoldable pub changed : Verdict → IpAddress → Bool
changed v ip = not (same_bool v.is_iran ip.is_iran && same_cidr v.cidr ip.iran_match_cidr)

-- filter(ip=ip, valid_until__isnull=True)
abbrev pub is_open : ℕ → IpCountryHistory → Bool
is_open ip_id h = h.ip_id == ip_id && not (is_some h.valid_until)

unfoldable pub close_periods : ℕ → Time → List IpCountryHistory → List IpCountryHistory
unfolding update_where
close_periods ip_id now = update_where (is_open ip_id) (λ h. record h { valid_until = some now })

abbrev pub new_period : ℕ → Time → Verdict → IpCountryHistory
new_period ip_id now v = record {
  ip_id = ip_id;
  country_code = iran_country_code;
  source = v.source;
  cidr = v.cidr;
  valid_from = now;
  valid_until = none;
  confidence = v.confidence;
}

-- The part of the transaction that writes the history.
unfoldable pub history_after :
    Time → Verdict → IpAddress → List IpCountryHistory → List IpCountryHistory
unfolding close_periods
history_after now v ip history =
    if changed v ip
    then close_periods ip.id now history ++ (if v.is_iran then new_period ip.id now v ∷ [] else [])
    else history

-- The columns of ip.save(update_fields=…)
abbrev pub classified : Time → Verdict → IpAddress → IpAddress
classified now v r = record r {
  is_iran = v.is_iran;
  iran_match_cidr = v.cidr;
  iran_checked_at = some now;
}

unfoldable pub apply_verdict : Time → Verdict → IpAddress → Db → Db × IpAddress
apply_verdict now v ip db = (
  update_ip ip.id (classified now v) (record db { history = history_after now v ip db.history }),
  classified now v ip,
)

unfoldable pub classify : Contains → Time → IpAddress → Db → Outcome (Db × IpAddress)
classify contains now ip db = do
  match ← find_matching_cidr contains ip.address db
  ok (apply_verdict now (verdict match ip.whois_country) ip db)
