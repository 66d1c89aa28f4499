-- ===== src/Iran/Export.antt =====
-- apps/iran/export.py, and the text that apps/iran/views.py makes of its rows.
pub mod Laws
pub mod Download
pub mod Spec
use ip_scout.Prelude.{
  ℕ, ◌-◌, ◌*◌, Option, none, some, Bool, true, false, not, ◌&&◌, ◌||◌, List, [], ◌∷◌, ◌++◌, Text,
  ◌==◌, ltb, leb, codes, any, filter, text_eq, is_some, if◌then◌else◌, map,
}
use ip_scout.Prelude.Int.{ℤ, pos, negsuc}
use ip_scout.Errors.{Outcome, ok, raise, value_error, ◌>>=◌}
use ip_scout.Python.Strip.{is_nil, strip}
use ip_scout.Python.Number.{isdigit, int}
use ip_scout.Models.{Time, IpAddress, RequestEvent, IpCountryHistory, Db}
use ip_scout.Iran.{iran_country_code}

-- PostgreSQL's `inet <<= cidr` for one cidr; `none` is the error for a text that is no network.
abbrev pub Within : Type 0
Within = Text → Option (Text → Bool)

abbrev hours : ℕ → ℕ
hours n = n * 3600000000

-- PERIODS.get(period)
unfoldable pub period_length : Text → Option ℕ
unfolding text_eq
period_length period =
    if text_eq period (codes "24h")
    then some (hours 24)
    else if text_eq period (codes "7d")
    then some (hours 168)
    else if text_eq period (codes "30d")
    then some (hours 720)
    else none

unfoldable pub period_since : Time → Text → Option Time
unfolding period_length
period_since now period = elim (period_length period) [ none ↦ none | some d ↦ some (now - d) ]

pub record ExportFilters : Type 0 where
  pub period : Text
  pub server_id : Option ℕ
  pub cidr : Text
  pub status_503_only : Bool
  pub iran_status : Text

-- The parameters of a query; a missing one is `none`.
pub record Params : Type 0 where
  pub server : Option Text
  pub period : Option Text
  pub cidr : Option Text
  pub status_503_only : Option Text
  pub iran_status : Option Text

abbrev get : Option Text → Text → Text
get none t = t
get (some s) t = s

-- int(server_id) if server_id.isdigit() else None
unfoldable pub server_of : Text → Outcome (Option ℕ)
unfolding isdigit int
server_of t =
    if isdigit t
    then elim (int t) [ some (pos n) ↦ ok (some n) | _ ↦ raise value_error ]
    else ok none

-- ExportFilters.from_querydict
unfoldable pub from_querydict : Params → Outcome ExportFilters
unfolding server_of strip text_eq
from_querydict params = do
  server ← server_of (get params.server [])
  ok (record {
    period = get params.period (codes "all");
    server_id = server;
    cidr = strip (get params.cidr []);
    status_503_only = not (text_eq (get params.status_503_only (codes "true")) (codes "false"));
    iran_status = get params.iran_status (codes "current");
  })

-- if filters.server_id: 0 is not a filter
abbrev pub truthy : Option ℕ → Bool
truthy none = false
truthy (some n) = not (n == 0)

abbrev pub same_server : Option ℕ → ℕ → Bool
same_server none n = true
same_server (some k) n = (k == 0) || (k == n)

abbrev pub not_before : Option Time → Time → Bool
not_before none t = true
not_before (some since) t = leb since t

-- The events that are asked for.
unfoldable pub is_selected : Time → ExportFilters → RequestEvent → Bool
unfolding period_since
is_selected now filters e =
    same_server filters.server_id e.server_id
    && not_before (period_since now filters.period) e.timestamp

unfoldable pub has_selected : Time → ExportFilters → Db → IpAddress → Bool
unfolding any is_selected
has_selected now filters db r =
    any (λ (e : RequestEvent). is_selected now filters e && (e.ip_id == r.id)) db.events

unfoldable pub wants_event : ExportFilters → Bool
unfolding text_eq
wants_event filters =
    filters.status_503_only
    || (truthy filters.server_id || not (text_eq filters.period (codes "all")))

-- An address that was Iranian in a period that is over.
unfoldable pub was_iranian : Db → IpAddress → Bool
unfolding any text_eq
was_iranian db r =
    any
      (λ (h : IpCountryHistory).
        text_eq h.country_code iran_country_code && is_some h.valid_until && (h.ip_id == r.id))
      db.history

unfoldable pub matches_status : Db → Text → IpAddress → Bool
unfolding text_eq was_iranian
matches_status db status r =
    if text_eq status (codes "current")
    then r.is_iran
    else if text_eq status (codes "previous")
    then was_iranian db r && not r.is_iran
    else true

-- IPExportService.build_queryset, up to the order of its rows, which is that of `inet`
unfoldable pub build_queryset : Within → Time → ExportFilters → Db → Outcome (List IpAddress)
unfolding filter
build_queryset within now filters db =
    let rows =
      filter
        (λ (r : IpAddress).
          (not (wants_event filters) || has_selected now filters db r)
          && matches_status db filters.iran_status r)
        db.ips in
    if is_nil filters.cidr then ok rows else elim (within filters.cidr) [
      | none ↦ raise value_error
      | some inside ↦ ok (filter (λ (r : IpAddress). inside r.address) rows)
    ]

-- The body of _export_txt: every address with a line break behind it
unfoldable pub export_txt : List IpAddress → Text
export_txt [] = []
export_txt (r ∷ rows) = r.address ++ b'\n' ∷ export_txt rows
