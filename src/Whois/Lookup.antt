-- ===== src/Whois/Lookup.antt =====
-- apps/whois/services.py and tasks.py: `WhoisService.lookup`, `perform_whois_lookup` and
-- `_run_lookup`. The binary, and the digest of a response, are parameters.
pub mod Laws
use ip_scout.Prelude.{
  ℕ, suc, ◌+◌, ◌*◌, ◌^◌, ◌≡◌, refl, Bool, true, false, not, ◌&&◌, ◌||◌, Option, none, some, List,
  [], ◌∷◌, ◌++◌, Text, ◌==◌, ltb, codes, text_eq, if◌then◌else◌, take, find?,
}
use ip_scout.Prelude.Int.{ℤ}
use ip_scout.Errors.{Outcome, ok, raise, ◌>>=◌}
use ip_scout.Python.Strip.{is_nil, strip}
use ip_scout.Python.Ipaddress.Network.{ip_address}
use ip_scout.Models.{Time, WhoisStatus, IpAddress, WhoisRecord, Message, whois, classify_ip, Db}
use ip_scout.Models.Tables.{get_ip, update_ip, delay}
use ip_scout.Common.Locks.{Cache, World, add, delete}
use ip_scout.Ips.Identity.{needs_whois_check}
use ip_scout.Whois.Parser.{Fields, parse_generic, extract_known_fields, known}
use ip_scout.Whois.Inetnum.{parse_asn, guess_whois_server, inetnum_to_cidr}

-- What running the binary ends in: a timeout, an OSError, or its two outputs and its exit status.
pub data Run : Type 0 where
  timed_out : Run
  os_error : Text → Run
  finished : Text → Text → Text → Run

-- The binary at the configured path. The errors are the texts that the program makes of them.
pub record Binary : Type 0 where
  pub exists : Bool
  pub run : Text → Run
  pub invalid_error : Text → Text
  pub missing_error : Text
  pub timeout_error : Text
  pub empty_error : Text → Text
  pub sha256 : Text → Text

pub record WhoisLookupResult : Type 0 where
  pub success : Bool
  pub raw_response : Text
  pub error : Text
  pub retryable : Bool

-- settings.WHOIS_TIMEOUT and settings.WHOIS_CACHE_DAYS
pub record Settings : Type 0 where
  pub whois_timeout : ℕ
  pub whois_cache_days : ℕ

abbrev pub seconds : ℕ → ℕ
seconds n = n * 1000000

abbrev pub days : ℕ → ℕ
days n = n * 86400000000

abbrev pub max_retries : ℕ
max_retries = 3

abbrev failed : Text → Bool → WhoisLookupResult
failed e retryable = record { success = false; raw_response = []; error = e; retryable = retryable }

abbrev or_else : Text → Text → Text
or_else [] b = b
or_else (c ∷ a) b = c ∷ a

-- How a task ends: it is done, or asks to be run again after some seconds.
pub data TaskEnd : Type 0 where
  done : World → TaskEnd
  retry : ℕ → World → TaskEnd

module _ (binary : Binary) where
  unfoldable pub lookup : Text → WhoisLookupResult
  unfolding ip_address strip
  lookup address = elim (ip_address address) [
    | none ↦ failed (binary.invalid_error address) false
    | some _ ↦ elim binary.exists [
      | false ↦ failed binary.missing_error false
      | true ↦ elim (binary.run address) [
        | timed_out ↦ failed binary.timeout_error true
        | os_error e ↦ failed e true
        | finished stdout stderr code ↦
            if is_nil (strip stdout)
            then failed (or_else (strip stderr) (binary.empty_error code)) false
            else record { success = true; raw_response = stdout; error = []; retryable = false }
      ]
    ]
  ]

  -- The row that a response is kept in.
  abbrev record_of : Time → IpAddress → Text → Fields → WhoisRecord
  record_of now ip raw generic = record {
    ip_id = ip.id;
    queried_at = now;
    whois_server = guess_whois_server generic;
    raw_response = raw;
    parsed_data = generic;
    response_hash = binary.sha256 raw;
  }

  -- WhoisRecord.objects.create(…)
  abbrev pub with_record : Time → IpAddress → Text → Db → Db
  with_record now ip raw db = record db {
    whois_records = db.whois_records ++ record_of now ip raw (parse_generic raw) ∷ [];
  }

abbrev pub or_empty : Option Text → Text
or_empty none = []
or_empty (some t) = t

-- known.get("netname", known.get("inetnum", ""))
abbrev network_name : List (Text × Text) → Text
network_name fields = elim (known (codes "netname") fields) [
  | none ↦ or_empty (known (codes "inetnum") fields)
  | some t ↦ t
]

-- The asn of an origin that is there, or else the old one.
unfoldable pub new_asn : List (Text × Text) → IpAddress → Outcome (Option ℕ)
unfolding parse_asn known
new_asn fields ip = elim (known (codes "origin") fields) [
  | none ↦ ok ip.asn
  | some [] ↦ ok ip.asn
  | some (c ∷ s) ↦ parse_asn (c ∷ s)
]

unfoldable pub new_cidr : List (Text × Text) → IpAddress → Outcome (Option Text)
unfolding inetnum_to_cidr known
new_cidr fields ip = elim (known (codes "inetnum") fields) [
  | none ↦ ok ip.cidr
  | some [] ↦ ok ip.cidr
  | some (c ∷ s) ↦ inetnum_to_cidr (c ∷ s)
]

-- classify_ip.delay(ip.id), if a country is known now
abbrev pub announce_country : List (Text × Text) → ℕ → Db → Db
announce_country fields pk db =
    if is_nil (take 2 (or_empty (known (codes "country") fields)))
    then db
    else delay (classify_ip pk) db

-- The seconds before the next attempt
abbrev pub countdown : ℕ → ℕ
countdown retries = 30 * 2 ^ retries

-- How the task ends, from what _run_lookup leaves; the lock is given back.
abbrev pub lookup_end : ℕ → World → Outcome (Option Db) → Outcome TaskEnd
lookup_end retries w (raise e) = raise e
lookup_end retries w (ok none) = ok (retry (countdown retries) w)
lookup_end retries w (ok (some db)) = ok (done (record w { db = db }))

module _ (settings : Settings) (now : Time) where
  -- The columns that a lookup which gave up sets.
  abbrev pub gave_up : Text → IpAddress → IpAddress
  gave_up e r = record r {
    whois_status = WhoisStatus.error;
    whois_error = e;
    whois_checked_at = some now;
    whois_next_check_at = some (now + days settings.whois_cache_days);
  }

  -- The columns that a lookup with an answer sets.
  abbrev pub answered : List (Text × Text) → Option ℕ → Option Text → IpAddress → IpAddress
  answered fields asn cidr r = record r {
    whois_status = WhoisStatus.ok;
    whois_error = [];
    whois_checked_at = some now;
    whois_next_check_at = some (now + days settings.whois_cache_days);
    whois_country = take 2 (or_empty (known (codes "country") fields));
    organization = take 255 (or_empty (known (codes "organization") fields));
    network = take 255 (network_name fields);
    asn = asn;
    cidr = cidr;
  }

  -- The part of _run_lookup behind a response.
  unfoldable pub store_response : Binary → IpAddress → Text → Db → Outcome Db
  unfolding update_ip parse_generic extract_known_fields known new_asn new_cidr guess_whois_server
      delay
  store_response binary ip raw db = do
    let fields = extract_known_fields (parse_generic raw)
    asn ← new_asn fields ip
    cidr ← new_cidr fields ip
    ok (
        announce_country fields ip.id
          (update_ip ip.id (answered fields asn cidr) (with_record binary now ip raw db)))

  -- What _run_lookup leaves in the database; `none` is a retry.
  unfoldable pub run_lookup : Binary → ℕ → IpAddress → Db → Outcome (Option Db)
  unfolding lookup store_response update_ip
  run_lookup binary retries ip db =
      let result = lookup binary ip.address in
      elim result.success [
        | true ↦ elim (store_response binary ip result.raw_response db) [
          | raise e ↦ raise e
          | ok d ↦ ok (some d)
        ]
        | false ↦
            if result.retryable && ltb retries max_retries
            then ok none
            else ok (some (update_ip ip.id (gave_up result.error) db))
      ]

  -- with redis_lock(…): _run_lookup(self, ip)
  unfoldable pub locked_lookup : Binary → ℕ → IpAddress → World → Outcome TaskEnd
  locked_lookup binary retries ip w =
      elim (add now (whois ip.address) (seconds (settings.whois_timeout + 30)) w.cache) [
        | none ↦ ok (done w)
        | some locked ↦
            let free = delete (whois ip.address) locked in
            lookup_end retries (record { db = w.db; cache = free })
              (run_lookup binary retries ip w.db)
      ]

  unfoldable pub perform_whois_lookup : Binary → ℕ → Bool → ℕ → World → Outcome TaskEnd
  unfolding get_ip
  perform_whois_lookup binary ip_id force retries w = elim (get_ip ip_id w.db) [
    | none ↦ ok (done w)
    | some ip ↦ elim (not force && not (needs_whois_check now ip)) [
      | true ↦ ok (done w)
      | false ↦ locked_lookup binary retries ip w
    ]
  ]
