-- ===== src/Iran/Validation.antt =====
-- apps/iran/services.py: `IranCIDRValidationService.run`.
pub mod Laws
pub mod Runs
pub mod Sync
use ip_scout.Prelude.{
  ℕ, zero, suc, ◌+◌, Bool, true, false, not, ◌&&◌, ◌||◌, Option, none, some, List, [], ◌∷◌, ◌++◌,
  Text, ◌==◌, ltb, filter, any, text_eq, update_where, length, if◌then◌else◌,
}
use ip_scout.Prelude.Int.{ℤ, pos, negsuc}
use ip_scout.Errors.{Outcome, ok, raise, validation_error, value_error, ◌>>=◌}
use ip_scout.Common.Fields.{get_prep_value}
use ip_scout.Models.{Time, IpAddress, CountryNetwork, Db}
use ip_scout.Iran.{iran_country_code}
use ip_scout.Iran.Match.{Contains}
use ip_scout.Iran.Classify.{classify}
use ip_scout.Iran.Providers.{CidrEntry, Provider, source_of, fetch, prefix_length_of}

pub record ValidationSummary : Type 0 where
  pub fetched : ℕ
  pub created : ℕ
  pub disabled : ℕ
  pub reevaluated : ℕ

-- The key of the unique constraint.
abbrev pub has_key : Text → Text → CountryNetwork → Bool
has_key country cidr n = text_eq n.country_code country && text_eq n.cidr cidr

-- The `defaults` of update_or_create
abbrev pub refresh : Time → Text → Text → CountryNetwork → CountryNetwork
refresh now source network n = record n {
  network = network;
  source = source;
  enabled = true;
  last_verified_at = some now;
}

-- A prefix length is stored in a column of natural numbers.
unfoldable pub natural : ℤ → Outcome ℕ
natural (pos n) = ok n
natural (negsuc n) = raise value_error

-- The state with a new row.
abbrev pub with_network : Time → Text → CidrEntry → Text → ℕ → Db → Db
with_network now source e cidr prefix db = record db {
  networks =
      db.networks
      ++ record {
        id = db.next_network;
        country_code = e.country_code;
        cidr = cidr;
        network = e.network;
        prefix_length = prefix;
        source = source;
        last_verified_at = some now;
        enabled = true;
      }
        ∷ [];
  next_network = suc db.next_network;
}

unfoldable pub insert_network : Time → Text → CidrEntry → Text → Db → Outcome Db
unfolding natural
insert_network now source e cidr db = do
  z ← prefix_length_of e.cidr
  prefix ← natural z
  ok (with_network now source e cidr prefix db)

-- The state with the rows of the key refreshed.
abbrev pub refreshed : Time → Text → CidrEntry → Text → Db → Db
refreshed now source e cidr db = record db {
  networks = update_where (has_key e.country_code cidr) (refresh now source e.network) db.networks;
}

-- CountryNetwork.objects.update_or_create(…): the state, and whether a row was created.
unfoldable pub upsert : Time → Text → CidrEntry → Text → Db → Outcome (Db × Bool)
unfolding any update_where
upsert now source e cidr db = elim (any (has_key e.country_code cidr) db.networks) [
  | true ↦ ok (refreshed now source e cidr db, false)
  | false ↦ elim (insert_network now source e cidr db) [
    | ok db' ↦ ok (db', true)
    | raise x ↦ raise x
  ]
]

-- The value of a cidr in a query; a null one violates the column's constraint.
unfoldable pub prepared : Text → Outcome Text
prepared cidr = elim (get_prep_value (some cidr)) [
  | ok (some t) ↦ ok t
  | ok none ↦ raise validation_error
  | raise e ↦ raise e
]

pub record Upserted : Type 0 where
  pub db : Db
  pub created : ℕ
  pub fetched_cidrs : List Text

-- The loop over the entries.
unfoldable pub upsert_all : Time → Text → List CidrEntry → Upserted → Outcome Upserted
upsert_all now source [] u = ok u
upsert_all now source (e ∷ entries) u = elim (prepared e.cidr) [
  | raise x ↦ raise x
  | ok cidr ↦ elim (upsert now source e cidr u.db) [
    | raise x ↦ raise x
    | ok (db, was_created) ↦ upsert_all now source entries (record {
      db = db;
      created = if was_created then suc u.created else u.created;
      fetched_cidrs = cidr ∷ u.fetched_cidrs;
    })
  ]
]

-- The filter of removed_qs
unfoldable pub is_removed : Text → List Text → CountryNetwork → Bool
unfolding text_eq any
is_removed source fetched n =
    text_eq n.country_code iran_country_code
    && text_eq n.source source
    && n.enabled
    && not (any (text_eq n.cidr) fetched)

abbrev pub disable : Time → CountryNetwork → CountryNetwork
disable now n = record n { enabled = false; last_verified_at = some now }

unfoldable pub disable_removed : Time → Text → List Text → Db → Db
unfolding update_where
disable_removed now source fetched db = record db {
  networks = update_where (is_removed source fetched) (disable now) db.networks;
}

-- The loop that classifies again; the rows are those that the query found.
unfoldable pub reevaluate : Contains → Time → List IpAddress → Db → Outcome Db
reevaluate contains now [] db = ok db
reevaluate contains now (ip ∷ ips) db = elim (classify contains now ip db) [
  | raise e ↦ raise e
  | ok (db', _) ↦ reevaluate contains now ips db'
]

-- The networks after the run, before addresses are classified again.
unfoldable pub sync : Time → Text → List CidrEntry → Db → Outcome (Upserted × ℕ)
unfolding filter
sync now source entries db = do
  u ← upsert_all now source entries (record { db = db; created = 0; fetched_cidrs = [] })
  ok (
    record u { db = disable_removed now source u.fetched_cidrs u.db },
    length (filter (is_removed source u.fetched_cidrs) u.db.networks),
  )

abbrev pub flagged : IpAddress → Bool
flagged r = r.is_iran

unfoldable pub run_entries :
    Contains → Time → Text → List CidrEntry → Db → Outcome (Db × ValidationSummary)
unfolding filter
run_entries contains now source entries db = do
  (u, disabled) ← sync now source entries db
  let ips = if (u.created == 0) && (disabled == 0) then [] else filter flagged u.db.ips
  done ← reevaluate contains now ips u.db
  ok (
    done,
    record {
      fetched = length entries;
      created = u.created;
      disabled = disabled;
      reevaluated = length ips;
    },
  )

unfoldable pub run : Contains → Time → Provider → Text → Db → Outcome (Db × ValidationSummary)
run contains now provider body db =
    run_entries contains now (source_of provider) (fetch provider body db) db
