-- ===== src/Users.antt =====
-- apps/users and apps/common/utils.py: the request context, the middleware that sets it, and the audit
-- log.
pub mod Laws
pub mod Pages
use ip_scout.Prelude.{
  ℕ, Option, none, some, Bool, true, false, List, [], ◌∷◌, ◌++◌, Text, if◌then◌else◌,
}
use ip_scout.Errors.{Outcome, ok, raise, data_error, ◌>>=◌}
use ip_scout.Python.Strip.{is_nil, strip}
use ip_scout.Python.Split.{split}
use ip_scout.Models.{AuditLogEntry, AuditResult, Db}

-- RequestContext; the context variable holds it, and has a default.
pub record RequestContext : Type 0 where
  pub user_id : Option ℕ
  pub ip_address : Option Text

abbrev pub no_context : RequestContext
no_context = record { user_id = none; ip_address = none }

-- The values of a contextvar: `set` gives a token, which is the value that was there.
abbrev pub ContextVar : Type 0
ContextVar = Option RequestContext

abbrev pub set_context : Option ℕ → Option Text → ContextVar → ContextVar × ContextVar
set_context user_id ip_address var =
    (some (record { user_id = user_id; ip_address = ip_address }), var)

abbrev pub reset_context : ContextVar → ContextVar → ContextVar
reset_context token var = token

unfoldable pub get_context : ContextVar → RequestContext
get_context none = no_context
get_context (some c) = c

-- The parts of a request that are read. An anonymous user has no id.
pub record HttpRequest : Type 0 where
  pub user_id : Option ℕ
  pub forwarded_for : Option Text
  pub remote_addr : Option Text

first_hop : List Text → Text
unfolding strip
first_hop [] = []
first_hop (a ∷ _) = strip a

unfoldable pub get_client_ip : HttpRequest → Option Text
unfolding first_hop split
get_client_ip request = elim request.forwarded_for [
  | none ↦ request.remote_addr
  | some f ↦ if is_nil f then request.remote_addr else some (first_hop (split b',' f))
]

-- What a request does: it reads and writes the variable and the database, and answers or raises. Both
-- states are kept when it raises.
abbrev pub Handler : Type 0 → Type 0
Handler A = ContextVar → Db → (Outcome A × ContextVar) × Db

-- AuditLogMiddleware.__call__
unfoldable pub call_middleware : {A : Type 0} → Handler A → HttpRequest → Handler A
unfolding get_client_ip
call_middleware get_response request var db =
    let (inner, token) = set_context request.user_id (get_client_ip request) var in
    let ((response, left), db') = get_response inner db in
    ((response, reset_context token left), db')

-- The object of an entry: its class and its key.
pub record Subject : Type 0 where
  pub object_type : Text
  pub pk : ℕ

abbrev pub type_of : Option Subject → Text
type_of none = []
type_of (some s) = s.object_type

abbrev pub key_of : Option Subject → Option ℕ
key_of none = none
key_of (some s) = some s.pk

abbrev or_else : {A : Type 0} → Option A → Option A → Option A
or_else none b = b
or_else (some a) b = some a

-- ip_address or ctx["ip_address"]
abbrev or_address : Option Text → Option Text → Option Text
or_address none b = b
or_address (some []) b = b
or_address (some (c ∷ s)) b = some (c ∷ s)

-- What the column stores for a text: an empty one is NULL, and a text that it does not take for an
-- address is a DataError.
unfoldable pub stored_address : (Text → Bool) → Option Text → Outcome (Option Text)
stored_address takes none = ok none
stored_address takes (some []) = ok none
stored_address takes (some (c ∷ s)) = if takes (c ∷ s) then ok (some (c ∷ s)) else raise data_error

-- record_audit_log, without the free text and the metadata of the entry
unfoldable pub record_audit_log :
    ContextVar → Text → Option Subject → AuditResult → Option ℕ → Option Text → Db → Outcome Db
unfolding get_context stored_address
record_audit_log var action obj result user ip_address db = do
  let ctx = get_context var
  address ← stored_address db.takes (or_address ip_address ctx.ip_address)
  ok (record db {
    audit_log =
        db.audit_log
        ++ record {
          user_id = or_else user ctx.user_id;
          action = action;
          object_type = type_of obj;
          object_id = key_of obj;
          ip_address = address;
          result = result;
        }
          ∷ [];
  })
