-- ===== src/Iran/Pages.antt =====
-- The pages of apps/iran/views.py that read, up to pagination. The orders of texts and of networks are the
-- database's.
use ip_scout.Prelude.{ℕ, Bool, List, Text, ltb, filter, map, text_eq, length, if◌then◌else◌}
use ip_scout.Errors.{Outcome, ok, ◌>>=◌}
use ip_scout.Query.{order_by}
use ip_scout.Models.{Time, Server, IpAddress, CountryNetwork, IpCountryHistory, Db}
use ip_scout.Iran.Export.{Within, Params, ExportFilters, from_querydict, build_queryset}

-- Meta.ordering of CountryNetwork
unfoldable pub network_before :
    (Text → Text → Bool) → (Text → Text → Bool) → CountryNetwork → CountryNetwork → Bool
unfolding text_eq
network_before text_before cidr_before a b =
    if text_eq a.country_code b.country_code
    then cidr_before a.cidr b.cidr
    else text_before a.country_code b.country_code

-- cidr_list
unfoldable pub cidr_list : (Text → Text → Bool) → (Text → Text → Bool) → Db → List CountryNetwork
unfolding network_before order_by
cidr_list text_before cidr_before db = order_by (network_before text_before cidr_before) db.networks

-- changes_list
unfoldable pub changes_list : Db → List IpCountryHistory
unfolding order_by
changes_list db = order_by (λ (a b : IpCountryHistory). ltb b.valid_from a.valid_from) db.history

pub record ExportPage : Type 0 where
  pub addresses : List Text
  pub count : ℕ
  pub filters : ExportFilters
  pub servers : List Server

-- export_view
unfoldable pub export_view :
    Within → (Text → Text → Bool) → (Text → Text → Bool) → Time → Params → Db → Outcome ExportPage
unfolding from_querydict build_queryset filter order_by
export_view within address_before name_before now params db = do
  filters ← from_querydict params
  rows ← build_queryset within now filters db
  let addresses =
      map (λ (r : IpAddress). r.address)
        (order_by (λ (a b : IpAddress). address_before a.address b.address) rows)
  ok (record {
    addresses = addresses;
    count = length addresses;
    filters = filters;
    servers =
        order_by (λ (a b : Server). name_before a.name b.name)
          (filter (λ (s : Server). s.enabled) db.servers);
  })
