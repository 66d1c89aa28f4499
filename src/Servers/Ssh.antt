-- ===== src/Servers/Ssh.antt =====
-- apps/servers/services.py: `SSHService`. The remote host, as `paramiko` shows it, is a parameter.
pub mod Laws
use ip_scout.Prelude.{
  ℕ, ◌+◌, ◌-◌, ◌≡◌, refl, Bool, true, false, not, ◌&&◌, ◌||◌, Option, none, some, List, [], ◌∷◌,
  ◌++◌, Text, ◌==◌, ltb, min, codes, text_eq, if◌then◌else◌, any, map,
}
use ip_scout.Errors.{Outcome, ok, raise, ssh_error, ◌>>=◌, ◌>>◌}
use ip_scout.Python.Split.{starts_with}
use ip_scout.Python.Strip.{is_nil, strip, ascii_lower}
use ip_scout.Models.{Server, ssh_key, password, AuthType}

-- x or None
abbrev or_none : Text → Option Text
or_none t = if is_nil t then none else some t

-- _KEY_CLASSES
pub data KeyClass : Type 0 where
  ed25519 rsa ecdsa : KeyClass

-- A parsed private key stands for itself by the class that parsed it and its text.
pub data Credential : Type 0 where
  pkey : KeyClass → Text → Credential
  pass : Text → Credential

-- The three numbers that `stat -c "%i %s %Y"` prints.
pub record Stat : Type 0 where
  pub inode : ℕ
  pub size : ℕ
  pub mtime : ℕ

pub record DirEntry : Type 0 where
  pub filename : Text
  pub is_dir : Bool
  pub size : Option ℕ
  pub mtime : Option ℕ

-- What `paramiko` and the remote commands answer. An `Option Text` is the message of an exception;
-- `stat` is `none` on a non-zero exit status, `listdir` on a FileNotFoundError.
pub record Host : Type 0 where
  pub key_error : KeyClass → Text → Option Text
  pub connect_error : Text → Credential → Option Text
  pub stdout : List Text → Text
  pub stderr : List Text → Text
  pub stat : Text → Outcome (Option Stat)
  pub read : Text → ℕ → ℕ → Outcome (List ℕ)
  pub listdir : Text → Option (List DirEntry)

pub record ConnectionTestResult : Type 0 where
  pub success : Bool
  pub os_name : Option Text
  pub nginx_found : Bool
  pub nginx_version : Option Text
  pub error : Option Text

abbrev failed_test : Text → ConnectionTestResult
failed_test e = record {
  success = false;
  os_name = none;
  nginx_found = false;
  nginx_version = none;
  error = some e;
}

pub record DiscoveredLogFile : Type 0 where
  pub path : Text
  pub size : ℕ
  pub mtime : ℕ

-- `data_read` is the field `data`.
pub record LogChunk : Type 0 where
  pub inode : ℕ
  pub size : ℕ
  pub mtime : ℕ
  pub offset : ℕ
  pub data_read : List ℕ
  pub rotated : Bool

abbrev pub default_log_dir : Text
default_log_dir = codes "/var/log/nginx/"

abbrev or_zero : Option ℕ → ℕ
or_zero none = 0
or_zero (some n) = n

ends_in_slash : Text → Bool
ends_in_slash [] = false
ends_in_slash (c ∷ []) = c == b'/'
ends_in_slash (c ∷ d ∷ s) = ends_in_slash (d ∷ s)

-- posixpath.join
join_path : Text → Text → Text
unfolding starts_with ends_in_slash
join_path directory filename =
    if starts_with filename (codes "/")
    then filename
    else if is_nil directory || ends_in_slash directory
    then directory ++ filename
    else directory ++ b'/' ∷ filename

-- _list_directory, its entries that are no directories
list_entries : Text → List DirEntry → List DiscoveredLogFile
unfolding join_path
list_entries directory [] = []
list_entries directory (e ∷ entries) =
    let rest = list_entries directory entries in
    if e.is_dir
    then rest
    else record {
      path = join_path directory e.filename;
      size = or_zero e.size;
      mtime = or_zero e.mtime;
    }
      ∷ rest

-- The two loops of discover_logs: `seen` are the paths of the files that were taken before.
unfoldable pub fresh_files : List Text → List DiscoveredLogFile → List DiscoveredLogFile
unfolding any text_eq
fresh_files seen [] = []
fresh_files seen (f ∷ files) = elim (any (text_eq f.path) seen) [
  | true ↦ fresh_files seen files
  | false ↦ f ∷ fresh_files (f.path ∷ seen) files
]

-- Where a poll of a file with the status `s` starts to read, and whether the file was rotated.
unfoldable pub read_start : Option ℕ → Option ℕ → Stat → ℕ × Bool
read_start none known_offset s = (s.size, false)
read_start (some known_inode) known_offset s =
    let rotated = not (s.inode == known_inode) in
    (if rotated then 0 else min (or_zero known_offset) s.size, rotated)

module _ (host : Host) where
  try_keys : Text → Text → List KeyClass → Outcome Credential
  try_keys data' last_error [] =
      raise (ssh_error (codes "Unable to parse SSH private key: " ++ last_error))
  try_keys data' last_error (k ∷ ks) = elim (host.key_error k data') [
    | none ↦ ok (pkey k data')
    | some e ↦ try_keys data' e ks
  ]

  unfoldable pub load_private_key : Text → Outcome Credential
  unfolding try_keys
  load_private_key key_data =
      if is_nil key_data
      then raise (ssh_error (codes "No SSH private key configured for this server."))
      else try_keys key_data [] (ed25519 ∷ rsa ∷ ecdsa ∷ [])

  credential : AuthType → Text → Outcome Credential
  unfolding load_private_key
  credential ssh_key secret = load_private_key secret
  credential password secret =
      if is_nil secret
      then raise (ssh_error (codes "No SSH password configured for this server."))
      else ok (pass secret)

  -- _connect_kwargs: the part that may fail
  unfoldable pub connect_kwargs : Server → Outcome Credential
  unfolding credential
  connect_kwargs server = credential server.ssh_auth_type server.ssh_private_key

  -- _client: an open connection has no state that the operations use.
  unfoldable pub client : Server → Outcome (Unit {0})
  unfolding connect_kwargs
  client server = do
    c ← connect_kwargs server
    elim (host.connect_error server.hostname c) [ none ↦ ok tt | some e ↦ raise (ssh_error e) ]

  session_test : ConnectionTestResult
  session_test =
      let os_name = strip (host.stdout (codes "uname" ∷ codes "-s" ∷ [])) in
      let nginx_path = strip (host.stdout (codes "command" ∷ codes "-v" ∷ codes "nginx" ∷ [])) in
      let version = codes "nginx" ∷ codes "-v" ∷ [] in
      let nginx_version = strip (host.stdout version ++ host.stderr version) in
      if not (text_eq (ascii_lower os_name) (codes "linux"))
      then record {
        success = false;
        os_name = or_none os_name;
        nginx_found = false;
        nginx_version = none;
        error = some (
            codes "Unsupported OS: "
            ++ ((if is_nil os_name then codes "unknown" else os_name)
                ++ codes " (Linux required)."));
      }
      else record {
        success = true;
        os_name = some os_name;
        nginx_found = not (is_nil nginx_path);
        nginx_version = if is_nil nginx_path then none else or_none nginx_version;
        error = none;
      }

  -- An SSH error becomes a failed result; nothing is raised.
  unfoldable pub test_connection : Server → ConnectionTestResult
  unfolding client session_test strip ascii_lower text_eq
  test_connection server = elim (client server) [
    | ok _ ↦ session_test
    | raise (ssh_error e) ↦ failed_test e
    | raise _ ↦ failed_test []
  ]

  list_directory : Text → List DiscoveredLogFile
  unfolding list_entries
  list_directory directory = elim (host.listdir directory) [
    | none ↦ []
    | some entries ↦ list_entries directory entries
  ]

  unfoldable pub all_files : List Text → List DiscoveredLogFile
  unfolding list_directory
  all_files [] = []
  all_files (d ∷ directories) = list_directory d ++ all_files directories

  unfoldable pub discover_logs : Server → List Text → Outcome (List DiscoveredLogFile)
  unfolding client all_files fresh_files
  discover_logs server extra_paths = do
    client server
    ok (fresh_files [] (all_files (default_log_dir ∷ extra_paths)))

  -- The range read, if there is something to read; opening and reading may raise.
  unfoldable pub read_from : Text → ℕ → Stat → Outcome (List ℕ)
  read_from path start s = if ltb start s.size then host.read path start (s.size - start) else ok []

  -- The chunk that a poll from `start` on gives.
  abbrev pub chunk_of : ℕ × Bool → Stat → List ℕ → LogChunk
  chunk_of start s data' = record {
    inode = s.inode;
    size = s.size;
    mtime = s.mtime;
    offset = start.0;
    data_read = data';
    rotated = start.1;
  }

  unfoldable pub poll_log : Server → Text → Option ℕ → Option ℕ → Outcome (Option LogChunk)
  unfolding read_from
  poll_log server path known_inode known_offset = do
    client server
    status ← host.stat path
    elim status [
      | none ↦ ok none
      | some s ↦ do
        data' ← read_from path (read_start known_inode known_offset s).0 s
        ok (some (chunk_of (read_start known_inode known_offset s) s data'))
    ]
