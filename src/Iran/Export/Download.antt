-- ===== src/Iran/Export/Download.antt =====
-- The export page of apps/iran/views.py. What `csv` and `json` make of the rows is theirs: a body holds
-- the rows that they are given.
use ip_scout.Prelude.{ℕ, Option, none, some, Bool, List, Text, codes, map, text_eq, if◌then◌else◌}
use ip_scout.Errors.{Outcome, ok, ◌>>=◌}
use ip_scout.Models.{Time, IpAddress, success, Db}
use ip_scout.Query.{order_by}
use ip_scout.Users.{ContextVar, record_audit_log}
use ip_scout.Iran.Export.{Within, Params, from_querydict, build_queryset, export_txt}

-- _EXPORT_FIELDS
pub record ExportRow : Type 0 where
  pub address : Text
  pub version : ℕ
  pub country_code : Text
  pub asn : Option ℕ
  pub organization : Text
  pub is_iran : Bool
  pub iran_match_cidr : Option Text
  pub first_seen_at : Time
  pub last_seen_at : Time

abbrev pub export_row : IpAddress → ExportRow
export_row r = record {
  address = r.address;
  version = r.version;
  country_code = r.country_code;
  asn = r.asn;
  organization = r.organization;
  is_iran = r.is_iran;
  iran_match_cidr = r.iran_match_cidr;
  first_seen_at = r.first_seen_at;
  last_seen_at = r.last_seen_at;
}

pub data Body : Type 0 where
  txt : Text → Body
  csv : List ExportRow → Body
  json : List ExportRow → Body

-- request.GET.get("format", "txt")
abbrev pub format_of : Option Text → Text
format_of none = codes "txt"
format_of (some t) = t

-- The choice between _export_csv, _export_json and _export_txt, of the rows in the order of their
-- addresses, which is that of `inet`
unfoldable pub export_body : (Text → Text → Bool) → Text → List IpAddress → Body
unfolding text_eq export_txt order_by
export_body address_before fmt rows =
    let sorted = order_by (λ (a b : IpAddress). address_before a.address b.address) rows in
    if text_eq fmt (codes "csv")
    then csv (map export_row sorted)
    else if text_eq fmt (codes "json")
    then json (map export_row sorted)
    else txt (export_txt sorted)

-- export_download
unfoldable pub export_download :
    Within
    → (Text → Text → Bool)
    → Time
    → ContextVar
    → Option Text
    → Params
    → Db
    → Outcome (Db × Body)
unfolding from_querydict build_queryset record_audit_log export_body
export_download within address_before now var fmt params db = do
  filters ← from_querydict params
  rows ← build_queryset within now filters db
  logged ← record_audit_log var (codes "iran.export") none success none none db
  ok (logged, export_body address_before (format_of fmt) rows)
