-- ===== src/Users/Laws.antt =====
-- The context of a request ends with the request.
use ip_scout.Prelude.{
  subst, filter, Bool, true, some, if◌then◌else◌, ap, Bool-cases, inl, inr, List, [], ◌∷◌, ◌++◌,
  map, sym, ◌∙◌, append-nil, append_assoc, ◌≡◌, refl, Option, none, Text,
}
use ip_scout.Models.{AuditLogEntry, AuditResult, Db}
use ip_scout.Errors.{Outcome, ok, raise, data_error}
use ip_scout.Users.{
  ContextVar, Handler, HttpRequest, Subject, get_context, type_of, key_of, get_client_ip,
  call_middleware, stored_address, record_audit_log,
}

-- A request whose handler records one action, and then answers or raises `a`. It raises before that if
-- the log refuses the entry.
unfoldable pub recording :
    {A : Type 0} → Text → Option Subject → AuditResult → Outcome A → Handler A
unfolding record_audit_log
recording action obj result a var db = elim (record_audit_log var action obj result none none db) [
  | raise e ↦ ((raise e, var), db)
  | ok logged ↦ ((a, var), logged)
]

-- What a request asks its handler to record.
pub record Action : Type 0 where
  pub request : HttpRequest
  pub action : Text
  pub obj : Option Subject
  pub result : AuditResult

-- A thread that serves requests one after another, each of which records its action and may raise; the
-- next one finds the context variable as the last one left it. Its results are the answers, in order.
unfoldable pub serve_all :
    {A : Type 0} → Outcome A → List Action → ContextVar → Db → List (Outcome A) × ContextVar × Db
unfolding call_middleware recording
serve_all a [] var db = ([], var, db)
serve_all a (x ∷ xs) var db =
    let ((answer, var'), db') =
      call_middleware (recording x.action x.obj x.result a) x.request var db in
    let (answers, left, db'') = serve_all a xs var' db' in (answer ∷ answers, left, db'')

-- Whether the log can hold the address of a client, or it has none.
abbrev pub can_hold : (Text → Bool) → Option Text → Bool
can_hold takes none = true
can_hold takes (some []) = true
can_hold takes (some (c ∷ s)) = takes (c ∷ s)

abbrev pub is_loggable : (Text → Bool) → Action → Bool
is_loggable takes x = can_hold takes (get_client_ip x.request)

abbrev non_empty : Option Text → Option Text
non_empty none = none
non_empty (some []) = none
non_empty (some (c ∷ s)) = some (c ∷ s)

-- The entry that belongs to an action.
abbrev pub entry_of : Action → AuditLogEntry
entry_of x = record {
  user_id = x.request.user_id;
  action = x.action;
  object_type = type_of x.obj;
  object_id = key_of x.obj;
  ip_address = non_empty (get_client_ip x.request);
  result = x.result;
}

abbrev pub answer_of : {A : Type 0} → (Text → Bool) → Outcome A → Action → Outcome A
answer_of takes a x = if is_loggable takes x then a else raise data_error

abbrev with_entry : Action → Db → Db
with_entry x db = record db { audit_log = db.audit_log ++ entry_of x ∷ [] }

-- What recording leaves, by the address of the client.
recording-can_hold :
    {A : Type 0} (a : Outcome A) (x : Action) (db : Db) (ip : Option Text)
    → recording x.action x.obj x.result a
        (some (record { user_id = x.request.user_id; ip_address = ip }))
        db
      ≡ (
        (
          if can_hold db.takes ip then a else raise data_error,
          some (record { user_id = x.request.user_id; ip_address = ip }),
        ),
        if can_hold db.takes ip
            then record db {
              audit_log =
                  db.audit_log
                  ++ record {
                    user_id = x.request.user_id;
                    action = x.action;
                    object_type = type_of x.obj;
                    object_id = key_of x.obj;
                    ip_address = non_empty ip;
                    result = x.result;
                  }
                    ∷ [];
            }
            else db,
      )
unfolding recording record_audit_log get_context stored_address
recording-can_hold a x db none = refl
recording-can_hold a x db (some []) = refl
recording-can_hold a x db (some (c ∷ s)) = elim (Bool-cases (db.takes (c ∷ s))) [
  | inl taken ↦ rw (taken, recording, record_audit_log, stored_address) refl
  | inr refused ↦ rw (refused, recording, record_audit_log, stored_address) refl
]

-- One request
serve_one :
    {A : Type 0} (a : Outcome A) (x : Action) (var : ContextVar) (db : Db)
    → call_middleware (recording x.action x.obj x.result a) x.request var db
      ≡ ((answer_of db.takes a x, var), if is_loggable db.takes x then with_entry x db else db)
unfolding call_middleware
serve_one a x var db =
    ap (λ r. ((r.0.0, var), r.1)) (recording-can_hold a x db (get_client_ip x.request))

-- However many requests a thread serves, each action whose client has an address that the log can hold,
-- or none, is attributed to the user and the client of its own request, in the order of the requests; the
-- others are not recorded, and their requests raise. The context variable is in the end what it was at
-- first.
pub serve_all-entry_of :
    {A : Type 0} (a : Outcome A) (actions : List Action) (var : ContextVar) (db : Db)
    → ((serve_all a actions var db).0 ≡ map (answer_of db.takes a) actions)
      × ((serve_all a actions var db).1 ≡ var)
      × ((serve_all a actions var db).2.audit_log
          ≡ db.audit_log ++ map entry_of (filter (is_loggable db.takes) actions))
unfolding serve_all filter
serve_all-entry_of a [] var db = (refl, refl, sym (append-nil db.audit_log))
serve_all-entry_of {A} a (x ∷ xs) var db = elim (Bool-cases (is_loggable db.takes x)) [
  | inl loggable ↦
      let (answers, left, log) = serve_all-entry_of a xs var (with_entry x db) in
      let one : call_middleware (recording x.action x.obj x.result a) x.request var db
          ≡ ((a, var), with_entry x db) =
        serve_one a x var db ∙ rw loggable refl in
      subst Served (sym (ap after one)) (
        rw loggable (
          ap (◌∷◌ a) answers,
          left,
          log
              ∙ append_assoc db.audit_log (entry_of x ∷ [])
                  (map entry_of (filter (is_loggable db.takes) xs)),
        ))
  | inr refused ↦
      let (answers, left, log) = serve_all-entry_of a xs var db in
      let one : call_middleware (recording x.action x.obj x.result a) x.request var db
          ≡ ((raise data_error, var), db) =
        serve_one a x var db ∙ rw refused refl in
      subst Served (sym (ap after one))
        (rw refused (ap (◌∷◌ (raise data_error)) answers, left, log))
]
  where
    after : (Outcome A × ContextVar) × Db → List (Outcome A) × ContextVar × Db
    after r = let (answers, left, db') = serve_all a xs r.0.1 r.1 in (r.0.0 ∷ answers, left, db')

    Served : List (Outcome A) × ContextVar × Db → Type 0
    Served r =
        (r.0 ≡ map (answer_of db.takes a) (x ∷ xs))
        × (r.1 ≡ var)
        × (r.2.audit_log ≡ db.audit_log ++ map entry_of (filter (is_loggable db.takes) (x ∷ xs)))
