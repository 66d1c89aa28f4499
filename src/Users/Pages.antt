-- ===== src/Users/Pages.antt =====
-- The audit log of apps/users/views.py, up to pagination. The log is a list in the order of its entries.
use ip_scout.Prelude.{
  Option, Bool, true, false, List, Text, codes, filter, reverse, text_eq, if◌then◌else◌,
}
use ip_scout.Python.Strip.{is_nil, strip}
use ip_scout.Models.{AuditResult, success, failure, AuditLogEntry, Db}
use ip_scout.Api.{get}

abbrev pub is_success : AuditResult → Bool
is_success success = true
is_success failure = false

abbrev pub is_failure : AuditResult → Bool
is_failure success = false
is_failure failure = true

-- The filter of ?result=, where it names a result
unfoldable pub with_result : Text → List AuditLogEntry → List AuditLogEntry
unfolding filter text_eq
with_result result entries =
    if text_eq result (codes "success")
    then filter (λ (e : AuditLogEntry). is_success e.result) entries
    else if text_eq result (codes "failure")
    then filter (λ (e : AuditLogEntry). is_failure e.result) entries
    else entries

-- audit_log_list, newest first
unfoldable pub audit_log_list :
    (Text → Text → Bool) → Option Text → Option Text → Db → List AuditLogEntry
unfolding strip filter with_result
audit_log_list icontains action result db =
    let wanted = strip (get action) in
    let entries = reverse db.audit_log in
    with_result (get result) (
      if is_nil wanted
      then entries
      else filter (λ (e : AuditLogEntry). icontains e.action wanted) entries)
