-- ===== src/Common/Locks/Laws.antt =====
-- The locks exclude each other as long as no task stays beyond its timeout.
use ip_scout.Prelude.{
  ℕ, ◌+◌, ◌<◌, ◌≡◌, refl, sym, ap, ◌∙◌, Bool, true, false, ◌&&◌, some, List, [], ◌∷◌, ◌==◌, any,
  filter, text_eq_refl, text_eq_iff, arith, Bool-cases, inl, inr, subst, All,
}
use ip_scout.Models.{Time, LockKey, ip_process, whois, iran, geo, logreader, ssh_test, ssh_discover}
use ip_scout.Common.Locks.{same_key, Entry, Cache, held, delete, add, Holder, LockState}

pub same_key_refl : (k : LockKey) → same_key k k ≡ true
unfolding same_key
same_key_refl (ip_process a) = text_eq_refl a
same_key_refl (whois a) = text_eq_refl a
same_key_refl (iran a) = text_eq_refl a
same_key_refl (geo a) = text_eq_refl a
same_key_refl (logreader a b) = ground arith
same_key_refl (ssh_test a) = ground arith
same_key_refl (ssh_discover a) = ground arith

pub eq_of_same_key : (a b : LockKey) → same_key a b ≡ true → a ≡ b
unfolding same_key
eq_of_same_key (ip_process a) (ip_process b) h = ap ip_process ((text_eq_iff a b).0 h)
eq_of_same_key (whois a) (whois b) h = ap whois ((text_eq_iff a b).0 h)
eq_of_same_key (iran a) (iran b) h = ap iran ((text_eq_iff a b).0 h)
eq_of_same_key (geo a) (geo b) h = ap geo ((text_eq_iff a b).0 h)
eq_of_same_key (logreader a b) (logreader c d) h = ground arith
eq_of_same_key (ssh_test a) (ssh_test b) h = ground arith
eq_of_same_key (ssh_discover a) (ssh_discover b) h = ground arith
eq_of_same_key _ _ h = cc

same_key_sym : (a b : LockKey) → same_key a b ≡ true → same_key b a ≡ true
same_key_sym a b h = subst (λ c. same_key c a ≡ true) (eq_of_same_key a b h) (same_key_refl a)

same_key_comm : (a b : LockKey) → same_key a b ≡ same_key b a
same_key_comm a b = ground (arith, same_key_sym a b, same_key_sym b a)

-- The cache has an entry for the lock of the holder, until its deadline.
abbrev pub Guarded : Cache → Holder → Type 0
Guarded cache h =
    any (λ (e : Entry). same_key h.key e.key && (e.expires_at == h.deadline)) cache ≡ true

abbrev pub has_key : LockKey → List Holder → Bool
has_key key holders = any (λ (h : Holder). same_key key h.key) holders

-- No two holders have the same lock.
abbrev pub Exclusive : List Holder → Type 0
Exclusive [] = Unit
Exclusive (h ∷ holders) = (has_key h.key holders ≡ false) × Exclusive holders

-- No holder has stayed until its deadline.
abbrev pub InTime : LockState → Type 0
InTime s = All (λ (h : Holder). s.now < h.deadline) s.holders

pub record Inv (s : LockState) : Type 0 where
  pub guarded : All (Guarded s.cache) s.holders
  pub exclusive : Exclusive s.holders

pub Guarded-held :
    (now : Time) (key : LockKey) (cache : Cache) (h : Holder)
    → Guarded cache h
    → now < h.deadline
    → same_key key h.key ≡ true
    → held now key cache ≡ true
unfolding held any
Guarded-held now key [] h g t k = cc
Guarded-held now key (e ∷ cache) h g t k =
    let same : key ≡ h.key = eq_of_same_key key h.key k in
    let same' : same_key key e.key ≡ same_key h.key e.key = ap (λ x. same_key x e.key) same in
    ground (arith, Guarded-held now key cache h)

pub Guarded-delete :
    (key : LockKey) (cache : Cache) (h : Holder)
    → same_key key h.key ≡ false
    → Guarded cache h
    → Guarded (delete key cache) h
unfolding delete filter any
Guarded-delete key [] h k g = g
Guarded-delete key (e ∷ cache) h k g = elim (Bool-cases (same_key key e.key)) [
  | inl gone ↦
      let same : key ≡ e.key = eq_of_same_key key e.key gone in
      let other : same_key h.key e.key ≡ false =
        ap (same_key h.key) (sym same) ∙ same_key_comm h.key key ∙ k in
      rw gone (Guarded-delete key cache h k (ground arith))
  | inr stays ↦ rw stays (ground (arith, Guarded-delete key cache h))
]

-- A lock that was given back is free.
pub held-delete :
    (now : Time) (key : LockKey) (cache : Cache) → held now key (delete key cache) ≡ false
unfolding held delete any filter
held-delete now key [] = refl
held-delete now key (e ∷ cache) = ground (arith, held-delete now key cache)

pub add-free :
    (now : Time) (key : LockKey) (timeout : ℕ) (cache : Cache)
    → held now key cache ≡ false
    → add now key timeout cache
      ≡ some (record { key = key; expires_at = now + timeout } ∷ delete key cache)
unfolding add
add-free now key timeout cache free = rw (free, add) refl
