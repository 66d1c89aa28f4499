-- ===== src/Common/Locks.antt =====
-- apps/common/locks.py: `redis_lock` over Django's cache, whose entries expire.
pub mod Laws
pub mod Exclusion
use ip_scout.Prelude.{
  ℕ, ◌+◌, ◌≡◌, refl, Bool, true, false, not, ◌&&◌, Option, none, some, List, [], ◌∷◌, Text, ◌==◌,
  ltb, any, filter, text_eq, if◌then◌else◌,
}
use ip_scout.Errors.{Outcome, ok, raise, ◌>>=◌}
use ip_scout.Models.{
  Time, LockKey, ip_process, whois, iran, geo, logreader, ssh_test, ssh_discover, Db,
}

-- Two names of locks are the same text.
unfoldable pub same_key : LockKey → LockKey → Bool
unfolding text_eq
same_key (ip_process a) (ip_process b) = text_eq a b
same_key (whois a) (whois b) = text_eq a b
same_key (iran a) (iran b) = text_eq a b
same_key (geo a) (geo b) = text_eq a b
same_key (logreader a b) (logreader c d) = (a == c) && (b == d)
same_key (ssh_test a) (ssh_test b) = a == b
same_key (ssh_discover a) (ssh_discover b) = a == b
same_key _ _ = false

-- An entry of the cache; from `expires_at` on it is gone.
pub record Entry : Type 0 where
  pub key : LockKey
  pub expires_at : Time

abbrev pub Cache : Type 0
Cache = List Entry

abbrev pub is_live : Time → LockKey → Entry → Bool
is_live now key e = same_key key e.key && ltb now e.expires_at

unfoldable pub held : Time → LockKey → Cache → Bool
unfolding any same_key
held now key cache = any (is_live now key) cache

-- cache.delete(key)
unfoldable pub delete : LockKey → Cache → Cache
unfolding filter same_key
delete key cache = filter (λ (e : Entry). not (same_key key e.key)) cache

-- cache.add(key, "1", timeout): `none` is False.
unfoldable pub add : Time → LockKey → ℕ → Cache → Option Cache
unfolding held delete
add now key timeout cache =
    if held now key cache
    then none
    else some (record { key = key; expires_at = now + timeout } ∷ delete key cache)

-- The database and the cache.
pub record World : Type 0 where
  pub db : Db
  pub cache : Cache

-- with redis_lock(key, timeout): body, where `none` is a LockHeldError. Between the two ends no other
-- task takes or gives back this lock.
unfoldable pub with_lock :
    {A : Type 0} → Time → LockKey → ℕ → (Db → Outcome (Db × A)) → World → Outcome (World × Option A)
with_lock now key timeout body w = elim (add now key timeout w.cache) [
  | none ↦ ok (w, none)
  | some locked ↦ elim (body w.db) [
    | raise e ↦ raise e
    | ok (db, a) ↦ ok (record { db = db; cache = delete key locked }, some a)
  ]
]

-- The same for a task that does nothing more behind the lock.
unfoldable pub locked : Time → LockKey → ℕ → (Db → Outcome Db) → World → Outcome World
locked now key timeout body w = do
  (w', _) ← with_lock now key timeout (λ db. body db >>= λ d. ok (d, tt)) w
  ok w'

-- A task inside the `with` of a lock, until when the lock is its own.
pub record Holder : Type 0 where
  pub task : ℕ
  pub key : LockKey
  pub deadline : Time

pub record LockState : Type 0 where
  pub now : Time
  pub cache : Cache
  pub holders : List Holder

unfoldable pub remove_holder : ℕ → List Holder → List Holder
unfolding filter
remove_holder task holders = filter (λ (h : Holder). not (h.task == task)) holders

unfoldable pub is_inside : ℕ → List Holder → Bool
unfolding any
is_inside task holders = any (λ (h : Holder). h.task == task) holders

-- The steps of the tasks that use locks: time passes, a task that is in none enters, and a task leaves.
pub data Step : LockState → LockState → Type 0 where
  wait : {s : LockState} (d : ℕ) → Step s (record s { now = s.now + d })
  enter :
      {s : LockState} (task : ℕ) (key : LockKey) (timeout : ℕ) (cache : Cache)
      → is_inside task s.holders ≡ false
      → add s.now key timeout s.cache ≡ some cache
      → Step s (record s {
        cache = cache;
        holders = record { task = task; key = key; deadline = s.now + timeout } ∷ s.holders;
      })
  leave :
      {s : LockState} (task : ℕ) (key : LockKey)
      → any (λ (h : Holder). (h.task == task) && same_key key h.key) s.holders ≡ true
      → Step s (record s { cache = delete key s.cache; holders = remove_holder task s.holders })
