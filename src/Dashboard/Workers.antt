-- ===== src/Dashboard/Workers.antt =====
-- apps/dashboard/workers.py, with the queues that the decorators of apps/*/tasks.py name. The broker and
-- the table of django-celery-results are parameters: what `LLEN` answers for a queue, and the rows.
pub mod Laws
use ip_scout.Prelude.{
  ℕ, ◌-◌, ◌*◌, Option, none, some, Bool, true, false, ◌&&◌, List, [], ◌∷◌, Text, ltb, leb, codes,
  any, filter, length, map, text_eq, if◌then◌else◌,
}
use ip_scout.Errors.{Outcome, ok, raise, overflow_error, ◌>>=◌}
use ip_scout.Models.{
  Time, Message, process_new_ip, perform_whois_lookup, classify_ip, enrich_ip, poll_log_source,
  purge_old_data, test_server_connection, discover_server_logs,
}

-- The groups of the page
pub data Group : Type 0 where
  log_readers ip_processing whois_queue iran_validation maintenance : Group

abbrev pub all_groups : List Group
all_groups = log_readers ∷ ip_processing ∷ whois_queue ∷ iran_validation ∷ maintenance ∷ []

abbrev pub label_of : Group → Text
label_of log_readers = codes "Log Readers"
label_of ip_processing = codes "IP Processing"
label_of whois_queue = codes "WHOIS Queue"
label_of iran_validation = codes "Iran Validation"
label_of maintenance = codes "Maintenance"

-- QUEUE_TASK_GROUPS
unfoldable pub task_names : Group → List Text
task_names log_readers =
    codes "apps.logs.tasks.poll_log_source" ∷ codes "apps.logs.tasks.poll_all_log_sources" ∷ []
task_names ip_processing =
    codes "apps.ips.tasks.process_new_ip" ∷ codes "apps.geo.tasks.enrich_ip" ∷ []
task_names whois_queue = codes "apps.whois.tasks.perform_whois_lookup" ∷ []
task_names iran_validation =
    codes "apps.iran.tasks.classify_ip" ∷ codes "apps.iran.tasks.run_monthly_iran_validation" ∷ []
task_names maintenance =
    codes "apps.ips.tasks.purge_old_data"
    ∷ codes "apps.ips.tasks.purge_stale_ips"
    ∷ codes "apps.incidents.tasks.purge_old_request_events"
    ∷ codes "apps.whois.tasks.purge_old_whois_records"
    ∷ codes "apps.servers.tasks.test_server_connection"
    ∷ codes "apps.servers.tasks.discover_server_logs"
    ∷ []

-- QUEUE_NAME_FOR_GROUP
unfoldable pub queue_name : Group → Text
queue_name log_readers = codes "logs"
queue_name ip_processing = codes "ips"
queue_name whois_queue = codes "whois"
queue_name iran_validation = codes "iran"
queue_name maintenance = codes "maintenance"

-- The name under which a message's task is registered
unfoldable pub task_name_of : Message → Text
task_name_of (process_new_ip _) = codes "apps.ips.tasks.process_new_ip"
task_name_of (perform_whois_lookup _ _) = codes "apps.whois.tasks.perform_whois_lookup"
task_name_of (classify_ip _) = codes "apps.iran.tasks.classify_ip"
task_name_of (enrich_ip _) = codes "apps.geo.tasks.enrich_ip"
task_name_of (poll_log_source _) = codes "apps.logs.tasks.poll_log_source"
task_name_of purge_old_data = codes "apps.ips.tasks.purge_old_data"
task_name_of (test_server_connection _ _) = codes "apps.servers.tasks.test_server_connection"
task_name_of (discover_server_logs _ _) = codes "apps.servers.tasks.discover_server_logs"

-- The queue that its decorator names
unfoldable pub queue_of : Message → Text
queue_of (process_new_ip _) = codes "ips"
queue_of (perform_whois_lookup _ _) = codes "whois"
queue_of (classify_ip _) = codes "iran"
queue_of (enrich_ip _) = codes "ips"
queue_of (poll_log_source _) = codes "logs"
queue_of purge_old_data = codes "maintenance"
queue_of (test_server_connection _ _) = codes "maintenance"
queue_of (discover_server_logs _ _) = codes "maintenance"

-- A row of TaskResult
pub record TaskResult : Type 0 where
  pub task_name : Text
  pub status : Text
  pub date_done : Time

-- What the broker answers for the length of a queue
pub data Llen : Type 0 where
  length_of : ℕ → Llen
  redis_error : Text → Llen

pub record QueueStatus : Type 0 where
  pub label : Text
  pub queue_name : Text
  pub queued : Option ℕ
  pub running : ℕ
  pub failed_recent : ℕ
  pub completed_recent : ℕ
  pub last_execution : Option Time
  pub redis_error : Text

abbrev queued_of : Llen → Option ℕ
queued_of (length_of n) = some n
queued_of (redis_error _) = none

abbrev error_of : Llen → Text
error_of (length_of _) = []
error_of (redis_error e) = e

-- TaskResult.objects.filter(task_name__in=task_names)
unfoldable pub results_of : Group → List TaskResult → List TaskResult
unfolding filter any text_eq task_names
results_of group results =
    filter (λ (r : TaskResult). any (text_eq r.task_name) (task_names group)) results

-- order_by("-date_done").values_list("date_done", flat=True).first()
unfoldable pub last_execution : List TaskResult → Option Time
last_execution [] = none
last_execution (r ∷ results) =
    let rest = last_execution results in
    elim rest [
      | none ↦ some r.date_done
      | some t ↦ some (if ltb t r.date_done then r.date_done else t)
    ]

abbrev pub with_status : Text → TaskResult → Bool
with_status status r = text_eq r.status status

abbrev pub recent : Time → Text → TaskResult → Bool
recent since status r = text_eq r.status status && leb since r.date_done

module _ (llen : Text → Llen) where
  unfoldable pub status_of : Time → List TaskResult → Group → QueueStatus
  unfolding results_of last_execution queue_name filter text_eq
  status_of since results group =
      let base = results_of group results in
      let answer = llen (queue_name group) in
      record {
        label = label_of group;
        queue_name = queue_name group;
        queued = queued_of answer;
        running = length (filter (with_status (codes "STARTED")) base);
        failed_recent = length (filter (recent since (codes "FAILURE")) base);
        completed_recent = length (filter (recent since (codes "SUCCESS")) base);
        last_execution = last_execution base;
        redis_error = error_of answer;
      }

  -- build_statuses; a start before the year 1 is an OverflowError.
  unfoldable pub build_statuses : Time → ℕ → List TaskResult → Outcome (List QueueStatus)
  unfolding status_of
  build_statuses now recent_window_hours results =
      if ltb now (recent_window_hours * 3600000000)
      then raise overflow_error
      else ok (map (status_of (now - recent_window_hours * 3600000000) results) all_groups)
