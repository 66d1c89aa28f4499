-- ===== src/Tests/Shared.antt =====
-- The encrypted field, the locks and the sessions at concrete inputs.
use ip_scout.Prelude.{
  ℕ, ◌≡◌, refl, true, false, Option, none, some, List, [], ◌∷◌, Text, codes, arith, drop, take, any,
}
use ip_scout.Errors.{ok}
use ip_scout.Common.Fields.{Fernet, encrypted_prep_value, encrypted_from_db}
use ip_scout.Common.Fields.Laws.{IsFernet, encrypted_from_db-prep_value}
use ip_scout.Models.{Server, ssh_key, whois, LockKey}
use ip_scout.Common.Locks.{
  LockState, Step, wait, enter, leave, is_inside, add, delete, remove_holder,
}
use ip_scout.Common.Locks.Laws.{Exclusive}
use ip_scout.Common.Locks.Exclusion.{Run, start, then_step, Run-Exclusive}
use ip_scout.Servers.Ssh.{
  Host, Stat, LogChunk, DirEntry, DiscoveredLogFile, discover_logs, all_files, default_log_dir,
}
use ip_scout.Servers.Ssh.Laws.{Shows, Fresh, has_path, discover_logs-Fresh}

-- A cipher that marks its tokens.
unmark : Text → Option Text
unmark [] = none
unmark (c ∷ s) = some s

abbrev fernet : Fernet
fernet = record { encrypt = λ k t. 1 ∷ t; decrypt = λ k t. unmark t }

fernet-IsFernet : IsFernet fernet
unfolding unmark
fernet-IsFernet = record { token = λ k t e. cc; decrypts = λ k t. refl }

encrypted_from_db-prep_value_example :
    encrypted_from_db fernet (some (codes "k")) (1 ∷ codes "secret") ≡ ok (codes "secret")
unfolding encrypted_prep_value
encrypted_from_db-prep_value_example =
    encrypted_from_db-prep_value fernet (some (codes "k")) (codes "secret") (1 ∷ codes "secret")
      fernet-IsFernet refl

-- One task takes a lock, and leaves before the timeout; a second one takes it.
abbrev key : LockKey
key = whois (codes "2.57.3.9")

abbrev s0 : LockState
s0 = record { now = 0; cache = []; holders = [] }

abbrev s1 : LockState
s1 = record {
  now = 0;
  cache = record { key = key; expires_at = 40 } ∷ [];
  holders = record { task = 1; key = key; deadline = 40 } ∷ [];
}

abbrev s2 : LockState
s2 = record s1 { now = 39 }

abbrev s3 : LockState
s3 = record { now = 39; cache = []; holders = [] }

abbrev s4 : LockState
s4 = record {
  now = 39;
  cache = record { key = key; expires_at = 79 } ∷ [];
  holders = record { task = 2; key = key; deadline = 79 } ∷ [];
}

step1 : Step s0 s1
unfolding is_inside add
step1 = enter 1 key 40 s1.cache refl refl

step2 : Step s1 s2
step2 = wait 39

step3 : Step s2 s3
unfolding any delete remove_holder
step3 = leave 1 key refl

step4 : Step s3 s4
unfolding is_inside add
step4 = enter 2 key 40 s4.cache refl refl

run : Run s0 s4
run =
    then_step
      (then_step (then_step (then_step start tt step1) (omega arith, tt) step2) (omega arith, tt)
        step3)
      tt step4

Run-Exclusive_example : Exclusive s4.holders
Run-Exclusive_example = Run-Exclusive s0 s4 refl run

-- A host with one log file of six bytes.
abbrev content : List ℕ
content = codes "a\nbc\nd"

abbrev stat : Stat
stat = record { inode = 7; size = 6; mtime = 1 }

abbrev access_log : DirEntry
access_log = record { filename = codes "access.log"; is_dir = false; size = some 6; mtime = some 1 }

abbrev host : Host
host = record {
  key_error = λ k t. none;
  connect_error = λ h c. none;
  stdout = λ a. [];
  stderr = λ a. [];
  stat = λ p. ok (some stat);
  read = λ p o n. ok (take n (drop o content));
  listdir = λ p. some (access_log ∷ []);
}

abbrev server : Server
server = record {
  id = 1;
  name = codes "web";
  hostname = codes "web.example";
  ssh_auth_type = ssh_key;
  ssh_private_key = codes "k";
  log_search_paths = [];
  enabled = true;
  last_connected_at = none;
  last_error = [];
}

abbrev path : Text
path = codes "/var/log/nginx/access.log"

host-Shows : Shows host path stat content
host-Shows = record { status = refl; size = refl; bytes = λ o n. refl }

abbrev chunk : LogChunk
chunk = record {
  inode = 7;
  size = 6;
  mtime = 1;
  offset = 2;
  data_read = codes "bc\nd";
  rotated = false;
}

-- The same directory twice.
abbrev files : List DiscoveredLogFile
files = record { path = path; size = 6; mtime = 1 } ∷ []

discover_logs-Fresh_example :
    Fresh [] files
    × ((p : Text)
        → any (has_path p) (all_files host (default_log_dir ∷ default_log_dir ∷ [])) ≡ true
        → any (has_path p) files ≡ true)
unfolding discover_logs
discover_logs-Fresh_example = discover_logs-Fresh host server (default_log_dir ∷ []) files refl
