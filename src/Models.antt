-- ===== src/Models.antt =====
-- The rows of the database (the models.py of each app), the messages for the task queues, the
-- locks that are held, and the whole state that the operations read and write.
--
-- Times are in microseconds since the year 1. A floating-point column holds the bits of its value,
-- which the program copies and never computes with.
pub mod Tables
use ip_scout.Prelude.{true, ℕ, Bool, Option, List, [], Text}
use ip_scout.Prelude.Int.{ℤ}

abbrev pub Time : Type 0
Time = ℕ

pub record Float : Type 0 where
  pub bits : ℕ

abbrev pub one : Float
one = record { bits = 0x3ff0000000000000 }

abbrev pub half : Float
half = record { bits = 0x3fe0000000000000 }

pub data AuthType : Type 0 where
  ssh_key password : AuthType

pub record Server : Type 0 where
  pub id : ℕ
  pub name : Text
  pub hostname : Text
  pub ssh_auth_type : AuthType
  pub ssh_private_key : Text
  pub log_search_paths : List Text
  pub enabled : Bool
  pub last_connected_at : Option Time
  pub last_error : Text

pub record LogSource : Type 0 where
  pub id : ℕ
  pub server_id : ℕ
  pub name : Text
  pub path : Text
  pub format : Text
  pub enabled : Bool
  pub inode : Option ℕ
  pub byte_offset : ℕ
  pub last_read_at : Option Time
  pub last_event_at : Option Time
  pub last_error : Text

pub data WhoisStatus : Type 0 where
  never_checked ok error : WhoisStatus

pub record IpAddress : Type 0 where
  pub id : ℕ
  pub address : Text
  pub version : ℕ
  pub country_code : Text
  pub country_name : Text
  pub continent : Text
  pub latitude : Option Float
  pub longitude : Option Float
  pub asn : Option ℕ
  pub organization : Text
  pub network : Text
  pub cidr : Option Text
  pub whois_status : WhoisStatus
  pub whois_checked_at : Option Time
  pub whois_next_check_at : Option Time
  pub whois_country : Text
  pub whois_error : Text
  pub is_iran : Bool
  pub iran_checked_at : Option Time
  pub iran_match_cidr : Option Text
  pub first_seen_at : Time
  pub last_seen_at : Time

pub record RequestEvent : Type 0 where
  pub server_id : ℕ
  pub log_source_id : ℕ
  pub ip_id : ℕ
  pub timestamp : Time
  pub host : Text
  pub method : Text
  pub uri : Text
  pub status : ℤ
  pub bytes : ℤ
  pub request_time : Option Float
  pub user_agent : Text
  pub referer : Text
  pub raw_line : Text

pub record CountryNetwork : Type 0 where
  pub id : ℕ
  pub country_code : Text
  pub cidr : Text
  pub network : Text
  pub prefix_length : ℕ
  pub source : Text
  pub last_verified_at : Option Time
  pub enabled : Bool

pub record IpCountryHistory : Type 0 where
  pub ip_id : ℕ
  pub country_code : Text
  pub source : Text
  pub cidr : Option Text
  pub valid_from : Time
  pub valid_until : Option Time
  pub confidence : Float

pub record WhoisRecord : Type 0 where
  pub ip_id : ℕ
  pub queried_at : Time
  pub whois_server : Text
  pub raw_response : Text
  pub parsed_data : List (Text × List Text)
  pub response_hash : Text

pub data AuditResult : Type 0 where
  success failure : AuditResult

pub record AuditLogEntry : Type 0 where
  pub user_id : Option ℕ
  pub action : Text
  pub object_type : Text
  pub object_id : Option ℕ
  pub ip_address : Option Text
  pub result : AuditResult

-- A message that `delay` puts on a task queue.
pub data Message : Type 0 where
  process_new_ip : ℕ → Message
  perform_whois_lookup : ℕ → Bool → Message
  classify_ip : ℕ → Message
  enrich_ip : ℕ → Message
  poll_log_source : ℕ → Message
  purge_old_data : Message
  test_server_connection : ℕ → Option ℕ → Message
  discover_server_logs : ℕ → Option ℕ → Message

-- The keys of `redis_lock`; the prefixes keep the families apart.
pub data LockKey : Type 0 where
  ip_process : Text → LockKey
  whois : Text → LockKey
  iran : Text → LockKey
  geo : Text → LockKey
  logreader : ℕ → ℕ → LockKey
  ssh_test : ℕ → LockKey
  ssh_discover : ℕ → LockKey

-- The tables, the queue of messages (oldest first), and the next primary key of each table.
pub record Db : Type 0 where
  pub servers : List Server
  pub log_sources : List LogSource
  pub ips : List IpAddress
  pub events : List RequestEvent
  pub networks : List CountryNetwork
  pub history : List IpCountryHistory
  pub whois_records : List WhoisRecord
  pub audit_log : List AuditLogEntry
  pub queue : List Message
  pub next_ip : ℕ
  pub next_network : ℕ
  pub next_source : ℕ
  -- Whether the column of an address gives a text back as it was written: it drops the scope of an
  -- IPv6 address, and prints some in another way.
  pub keeps : Text → Bool
  -- Whether the column of the client's address takes a text for an address.
  pub takes : Text → Bool

abbrev pub empty_db : Db
empty_db = record {
  servers = [];
  log_sources = [];
  ips = [];
  events = [];
  networks = [];
  history = [];
  whois_records = [];
  audit_log = [];
  queue = [];
  next_ip = 1;
  next_network = 1;
  next_source = 1;
  keeps = λ a. true;
  takes = λ a. true;
}
