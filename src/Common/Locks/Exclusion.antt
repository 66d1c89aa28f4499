-- ===== src/Common/Locks/Exclusion.antt =====
-- The locks exclude each other as long as no task stays in one beyond its timeout.
use ip_scout.Prelude.{
  ℕ, ◌+◌, ◌<◌, ◌≡◌, refl, sym, ap, ◌∙◌, true, false, ◌&&◌, some, List, [], ◌∷◌, ◌==◌, any, filter,
  arith, Bool-cases, inl, inr, subst, All,
}
use ip_scout.Models.{Time, LockKey}
use ip_scout.Common.Locks.{
  same_key, Cache, held, delete, add, Holder, LockState, remove_holder, Step, wait, enter, leave,
}
use ip_scout.Common.Locks.Laws.{
  same_key_refl, eq_of_same_key, Guarded, Guarded-held, Guarded-delete, has_key, Exclusive, InTime,
  Inv,
}

module _ (now : Time) (key : LockKey) (timeout : ℕ) (cache : Cache)
    (free : held now key cache ≡ false) where
  no_holder :
      (holders : List Holder)
      → All (Guarded cache) holders
      → All (λ (h : Holder). now < h.deadline) holders
      → has_key key holders ≡ false
  unfolding any
  no_holder [] g t = refl
  no_holder (h ∷ holders) g t =
      ground (arith, Guarded-held now key cache h g.0 t.0, no_holder holders g.1 t.1)

  keep_guards :
      (holders : List Holder)
      → All (Guarded cache) holders
      → has_key key holders ≡ false
      → All (Guarded (record { key = key; expires_at = now + timeout } ∷ delete key cache)) holders
  unfolding any
  keep_guards [] g k = tt
  keep_guards (h ∷ holders) g k = (
    ground (arith, Guarded-delete key cache h (ground arith) g.0),
    keep_guards holders g.1 (ground arith),
  )

enter-Inv :
    (s : LockState) (task : ℕ) (key : LockKey) (timeout : ℕ) (cache : Cache)
    → add s.now key timeout s.cache ≡ some cache
    → InTime s
    → Inv s
    → Inv (record s {
      cache = cache;
      holders = record { task = task; key = key; deadline = s.now + timeout } ∷ s.holders;
    })
unfolding add any
enter-Inv s task key timeout cache h t i = elim (Bool-cases (held s.now key s.cache)) [
  | inl taken ↦ absurd (ground arith)
  | inr free ↦
      let new = record { key = key; expires_at = s.now + timeout } ∷ delete key s.cache in
      let e : new ≡ cache = ground arith in
      let alone = no_holder s.now key timeout s.cache free s.holders i.guarded t in
      subst
        (λ (c : Cache). Inv (record s {
          cache = c;
          holders = record { task = task; key = key; deadline = s.now + timeout } ∷ s.holders;
        }))
        e
        (record {
          guarded = (
            ground (arith, same_key_refl key),
            keep_guards s.now key timeout s.cache free s.holders i.guarded alone,
          );
          exclusive = (alone, i.exclusive);
        })
]

module _ (task : ℕ) where
  has_key-remove :
      (key : LockKey) (holders : List Holder)
      → has_key key holders ≡ false
      → has_key key (remove_holder task holders) ≡ false
  unfolding any remove_holder filter
  has_key-remove key [] k = refl
  has_key-remove key (h ∷ holders) k = ground (arith, has_key-remove key holders)

  Exclusive-remove :
      (holders : List Holder) → Exclusive holders → Exclusive (remove_holder task holders)
  unfolding remove_holder filter
  Exclusive-remove [] x = tt
  Exclusive-remove (h ∷ holders) x = elim (Bool-cases (h.task == task)) [
    | inl gone ↦ rw gone (Exclusive-remove holders x.1)
    | inr stays ↦ rw stays (has_key-remove h.key holders x.0, Exclusive-remove holders x.1)
  ]

  leaver-is_holder :
      (key : LockKey) (holders : List Holder)
      → any (λ (h : Holder). (h.task == task) && same_key key h.key) holders ≡ true
      → has_key key holders ≡ true
  unfolding any
  leaver-is_holder key [] l = l
  leaver-is_holder key (h ∷ holders) l = ground (arith, leaver-is_holder key holders)

  -- Behind the task that leaves, no other holder has the lock.
  leaver-has_key :
      (key : LockKey) (holders : List Holder)
      → any (λ (h : Holder). (h.task == task) && same_key key h.key) holders ≡ true
      → Exclusive holders
      → has_key key (remove_holder task holders) ≡ false
  unfolding any remove_holder filter
  leaver-has_key key [] l x = refl
  leaver-has_key key (h ∷ holders) l x = elim (Bool-cases (same_key key h.key)) [
    | inl same ↦
        let e : key ≡ h.key = eq_of_same_key key h.key same in
        let alone : has_key key holders ≡ false = ap (λ k. has_key k holders) e ∙ x.0 in
        ground (arith, leaver-is_holder key holders, has_key-remove key holders alone)
    | inr other ↦ ground (arith, leaver-has_key key holders)
  ]

  guards-remove :
      (key : LockKey) (cache : Cache) (holders : List Holder)
      → has_key key (remove_holder task holders) ≡ false
      → All (Guarded cache) holders
      → All (Guarded (delete key cache)) (remove_holder task holders)
  unfolding any remove_holder filter
  guards-remove key cache [] k g = tt
  guards-remove key cache (h ∷ holders) k g = elim (Bool-cases (h.task == task)) [
    | inl gone ↦ rw gone (guards-remove key cache holders (ground arith) g.1)
    | inr stays ↦ rw stays (
      Guarded-delete key cache h (ground arith) g.0,
      guards-remove key cache holders (ground arith) g.1,
    )
  ]

Step-Inv : {s s' : LockState} → Step s s' → InTime s → Inv s → Inv s'
Step-Inv {s} (wait d) t i = record { guarded = i.guarded; exclusive = i.exclusive }
Step-Inv {s} (enter task key timeout cache outside h) t i = enter-Inv s task key timeout cache h t i
Step-Inv {s} (leave task key l) t i = record {
  guarded =
      guards-remove task key s.cache s.holders (leaver-has_key task key s.holders l i.exclusive)
        i.guarded;
  exclusive = Exclusive-remove task s.holders i.exclusive;
}

-- Steps, each from a state in which no task has overstayed.
pub data Run : LockState → LockState → Type 0 where
  start : {s : LockState} → Run s s
  then_step : {s t u : LockState} → Run s t → InTime t → Step t u → Run s u

run-Inv : {s s' : LockState} → Run s s' → Inv s → Inv s'
run-Inv start i = i
run-Inv (then_step run t step) i = Step-Inv step t (run-Inv run i)

-- From a state without tasks in locks, and whatever is in the cache, no two tasks are ever in the
-- same lock, if no step is taken while a task is in a lock beyond its timeout.
pub Run-Exclusive : (s s' : LockState) → s.holders ≡ [] → Run s s' → Exclusive s'.holders
Run-Exclusive s s' empty run =
    (run-Inv run (record {
      guarded = subst (All (Guarded s.cache)) (sym empty) tt;
      exclusive = subst Exclusive (sym empty) tt;
    })).exclusive
