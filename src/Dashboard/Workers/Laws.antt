-- ===== src/Dashboard/Workers/Laws.antt =====
-- The page of the workers counts every task of the program once, in the group of its queue.
use ip_scout.Prelude.{
  All, sym, subst, ◌-◌, ◌*◌, map, ℕ, ◌+◌, ◌≡◌, refl, ◌∙◌, Bool, true, false, ◌&&◌, List, [], ◌∷◌,
  Text, any, filter, length, text_eq, text_eq_iff, if◌then◌else◌, arith, Bool-cases, inl, inr,
  codes,
}
use ip_scout.Errors.{ok}
use ip_scout.Models.{
  Time, Message, process_new_ip, perform_whois_lookup, classify_ip, enrich_ip, poll_log_source,
  purge_old_data, test_server_connection, discover_server_logs,
}
use ip_scout.Dashboard.Workers.{
  Group, all_groups, log_readers, ip_processing, whois_queue, iran_validation, maintenance,
  task_names, queue_name, task_name_of, queue_of, TaskResult, results_of, Llen, QueueStatus,
  with_status, recent, status_of, build_statuses,
}

abbrev pub is_task_of : Text → Group → Bool
is_task_of name group = any (text_eq name) (task_names group)

-- The groups that a task belongs to.
abbrev groups_of : Text → List Group
groups_of name = filter (is_task_of name) all_groups

-- How many results of the groups pass a test.
abbrev pub counted_in : (TaskResult → Bool) → List TaskResult → List Group → ℕ
counted_in p results [] = 0
counted_in p results (g ∷ groups) =
    length (filter p (results_of g results)) + counted_in p results groups

abbrev bit : Bool → ℕ
bit true = 1
bit false = 0

-- What one more result adds.
counted_in-cons :
    (p : TaskResult → Bool) (r : TaskResult) (results : List TaskResult) (groups : List Group)
    → counted_in p (r ∷ results) groups
      ≡ (if p r then length (filter (is_task_of r.task_name) groups) else 0)
        + counted_in p results groups
unfolding results_of filter
counted_in-cons p r results [] = ground arith
counted_in-cons p r results (g ∷ groups) = ground (arith, counted_in-cons p r results groups)

abbrev is_known : Text → Bool
is_known name = any (is_task_of name) all_groups

filter_none :
    (q : Group → Bool) (groups : List Group) → any q groups ≡ false → length (filter q groups) ≡ 0
unfolding filter any
filter_none q [] h = refl
filter_none q (g ∷ groups) h = ground (arith, filter_none q groups)

-- What holds of each name in a list holds of a text that is one of them.
any-elim :
    (P : Text → Type 0) (name : Text) (names : List Text)
    → All P names
    → any (text_eq name) names ≡ true
    → P name
unfolding any
any-elim P name [] all h = absurd (ground arith)
any-elim P name (n ∷ names) (p, all) h = elim (Bool-cases (text_eq name n)) [
  | inl same ↦ subst P (sym ((text_eq_iff name n).0 same)) p
  | inr other ↦ any-elim P name names all (rw other at h)
]

known-elim :
    (P : Text → Type 0) (name : Text) (groups : List Group)
    → All (λ (g : Group). All P (task_names g)) groups
    → any (is_task_of name) groups ≡ true
    → P name
unfolding any
known-elim P name [] all h = absurd (ground arith)
known-elim P name (g ∷ groups) (p, all) h = elim (Bool-cases (is_task_of name g)) [
  | inl here ↦ any-elim P name (task_names g) p here
  | inr other ↦ known-elim P name groups all (rw other at h)
]

abbrev InOne : Text → Type 0
InOne name = length (groups_of name) ≡ 1

-- No task is in two groups.
all-InOne : All (λ (g : Group). All InOne (task_names g)) all_groups
unfolding task_names any filter text_eq
all-InOne = (
  (refl, (refl, tt)),
  (
    (refl, (refl, tt)),
    ((refl, tt), ((refl, (refl, tt)), ((refl, (refl, (refl, (refl, (refl, (refl, tt)))))), tt))),
  ),
)

one_group : (name : Text) → length (groups_of name) ≡ bit (is_known name)
one_group name = elim (Bool-cases (is_known name)) [
  | inl known ↦ rw known (known-elim InOne name all_groups all-InOne known)
  | inr unknown ↦ rw unknown (filter_none (is_task_of name) all_groups unknown)
]

counted_in-nil : (p : TaskResult → Bool) (groups : List Group) → counted_in p [] groups ≡ 0
unfolding results_of filter
counted_in-nil p [] = refl
counted_in-nil p (g ∷ groups) = omega (arith, counted_in-nil p groups)

-- Over all groups, a result of a known task is counted once, and any other result never.
counted_once :
    (p : TaskResult → Bool) (results : List TaskResult)
    → counted_in p results all_groups
      ≡ length (filter (λ (r : TaskResult). p r && is_known r.task_name) results)
unfolding filter
counted_once p [] = counted_in-nil p all_groups
counted_once p (r ∷ results) =
    counted_in-cons p r results all_groups
    ∙ ground (arith, one_group r.task_name, counted_once p results)

-- The sums over the rows of the page.
abbrev pub sum_of : (QueueStatus → ℕ) → List QueueStatus → ℕ
sum_of f [] = 0
sum_of f (s ∷ statuses) = f s + sum_of f statuses

-- The results of the program's tasks that pass a test.
abbrev pub results_where : (TaskResult → Bool) → List TaskResult → ℕ
results_where p results = length (filter (λ (r : TaskResult). p r && is_known r.task_name) results)

-- Every result of a task that a group names is counted exactly once over the rows of the page: as
-- running if it has started, and as failed or completed if it ended so within the window.
pub build_statuses-counts :
    (llen : Text → Llen) (now : Time) (hours : ℕ) (results : List TaskResult)
    (statuses : List QueueStatus)
    → build_statuses llen now hours results ≡ ok statuses
    → (sum_of (λ s. s.running) statuses ≡ results_where (with_status (codes "STARTED")) results)
      × (sum_of (λ s. s.failed_recent) statuses
          ≡ results_where (recent (now - hours * 3600000000) (codes "FAILURE")) results)
      × (sum_of (λ s. s.completed_recent) statuses
          ≡ results_where (recent (now - hours * 3600000000) (codes "SUCCESS")) results)
unfolding build_statuses status_of
build_statuses-counts llen now hours results statuses h =
    let since = now - hours * 3600000000 in
    let same : map (status_of llen since results) all_groups ≡ statuses = ground arith in
    subst
      (λ rows.
        (sum_of (λ s. s.running) rows ≡ results_where (with_status (codes "STARTED")) results)
        × (sum_of (λ s. s.failed_recent) rows
            ≡ results_where (recent since (codes "FAILURE")) results)
        × (sum_of (λ s. s.completed_recent) rows
            ≡ results_where (recent since (codes "SUCCESS")) results))
      same
      (
        counted_once (with_status (codes "STARTED")) results,
        counted_once (recent since (codes "FAILURE")) results,
        counted_once (recent since (codes "SUCCESS")) results,
      )

-- A message goes to the queue whose length stands beside the results of its task.
pub queue_of-queue_name :
    (m : Message)
    → (g : Group) × (is_task_of (task_name_of m) g ≡ true) × (queue_name g ≡ queue_of m)
unfolding task_name_of queue_of task_names queue_name any text_eq
queue_of-queue_name (process_new_ip _) = (ip_processing, refl, refl)
queue_of-queue_name (perform_whois_lookup _ _) = (whois_queue, refl, refl)
queue_of-queue_name (classify_ip _) = (iran_validation, refl, refl)
queue_of-queue_name (enrich_ip _) = (ip_processing, refl, refl)
queue_of-queue_name (poll_log_source _) = (log_readers, refl, refl)
queue_of-queue_name purge_old_data = (maintenance, refl, refl)
queue_of-queue_name (test_server_connection _ _) = (maintenance, refl, refl)
queue_of-queue_name (discover_server_logs _ _) = (maintenance, refl, refl)
