-- ===== src/Iran/Tasks.antt =====
-- apps/iran/tasks.py: `classify_ip` and `run_monthly_iran_validation`.
use ip_scout.Prelude.{ℕ, none, some, true, false, Text, any, text_eq}
use ip_scout.Errors.{Outcome, ok, raise, ◌>>=◌}
use ip_scout.Models.{Time, IpAddress, CountryNetwork, iran, Db}
use ip_scout.Models.Tables.{get_ip}
use ip_scout.Common.Locks.{World, locked}
use ip_scout.Whois.Lookup.{seconds}
use ip_scout.Iran.{iran_country_code}
use ip_scout.Iran.Match.{Contains}
use ip_scout.Iran.Classify.{classify}
use ip_scout.Iran.Providers.{get_provider}
use ip_scout.Iran.Validation.{run}

unfoldable pub classify_ip : Contains → Time → ℕ → World → Outcome World
unfolding get_ip
classify_ip contains now ip_id w = elim (get_ip ip_id w.db) [
  | none ↦ ok w
  | some ip ↦
      locked now (iran ip.address) (seconds 60)
        (λ db. classify contains now ip db >>= λ (r : Db × IpAddress). ok r.0) w
]

-- The run with the configured provider and what its URL answers.
unfoldable pub run_monthly_iran_validation : Contains → Time → Text → Text → Db → Outcome Db
unfolding any text_eq get_provider
run_monthly_iran_validation contains now configured body db =
    elim (any (λ (n : CountryNetwork). text_eq n.country_code iran_country_code) db.networks) [
      | false ↦ ok db
      | true ↦ elim (get_provider none configured) [
        | raise e ↦ raise e
        | ok provider ↦ elim (run contains now provider body db) [
          | raise e ↦ raise e
          | ok (db', _) ↦ ok db'
        ]
      ]
    ]
