-- ===== src/Servers/Tasks/Laws.antt =====
-- What a discovery does to the log sources.
use ip_scout.Prelude.{
  ℕ, ◌≡◌, refl, ◌∙◌, Bool, true, false, ◌||◌, List, [], ◌∷◌, ◌++◌, Text, any, text_eq_iff,
  text_eq_refl, arith, Elem, Bool-cases, inl, inr, subst,
}
use ip_scout.Models.{LogSource, Db}
use ip_scout.Servers.Ssh.{DiscoveredLogFile}
use ip_scout.Servers.Ssh.Laws.{has_path}
use ip_scout.Servers.Tasks.{is_at, new_source, with_source, register}

-- No server has two sources with one path.
abbrev pub Distinct : List LogSource → Type 0
Distinct [] = Unit
Distinct (s ∷ sources) = (any (is_at s.server_id s.path) sources ≡ false) × Distinct sources

Elem-append : (s : LogSource) (xs ys : List LogSource) → Elem s xs → Elem s (xs ++ ys)
Elem-append s [] ys i = absurd i
Elem-append s (x ∷ xs) ys (inl e) = inl e
Elem-append s (x ∷ xs) ys (inr i) = inr (Elem-append s xs ys i)

any-append :
    (q : LogSource → Bool) (xs ys : List LogSource) → any q (xs ++ ys) ≡ (any q xs || any q ys)
unfolding any
any-append q [] ys = refl
any-append q (x ∷ xs) ys = ground (arith, any-append q xs ys)

is_at_comm :
    (server_id server_id' : ℕ) (path path' : Text) (s s' : LogSource)
    → s.server_id ≡ server_id
    → s.path ≡ path
    → s'.server_id ≡ server_id'
    → s'.path ≡ path'
    → is_at server_id path s' ≡ is_at server_id' path' s
is_at_comm i j p q s s' a b c d =
    ground (arith, text_eq_iff p q, text_eq_iff q p, text_eq_iff s.path q, text_eq_iff s'.path p)

Distinct-snoc :
    (sources : List LogSource) (n : LogSource)
    → any (is_at n.server_id n.path) sources ≡ false
    → Distinct sources
    → Distinct (sources ++ n ∷ [])
unfolding any
Distinct-snoc [] n h d = (refl, tt)
Distinct-snoc (s ∷ sources) n h d = (
  any-append (is_at s.server_id s.path) sources (n ∷ [])
      ∙ ground
          (arith, d.0, is_at_comm s.server_id n.server_id s.path n.path s n refl refl refl refl),
  Distinct-snoc sources n (ground arith) d.1,
)

-- The sources are all still there as they were, no two are for one file, and there is one for each of
-- the files.
pub record Registered (server_id : ℕ) (files : List DiscoveredLogFile) (db db' : Db) : Type 0 where
  pub kept : (s : LogSource) → Elem s db.log_sources → Elem s db'.log_sources
  pub distinct : Distinct db.log_sources → Distinct db'.log_sources
  pub covered :
      (path : Text)
      → any (has_path path) files ≡ true
      → any (is_at server_id path) db'.log_sources ≡ true
  pub found :
      (path : Text)
      → any (is_at server_id path) db.log_sources ≡ true
      → any (is_at server_id path) db'.log_sources ≡ true

module _ (server_id : ℕ) (f : DiscoveredLogFile) (files : List DiscoveredLogFile) where
  Registered-cons :
      (db mid db' : Db)
      → ((s : LogSource) → Elem s db.log_sources → Elem s mid.log_sources)
      → (Distinct db.log_sources → Distinct mid.log_sources)
      → ((path : Text)
          → any (is_at server_id path) db.log_sources ≡ true
          → any (is_at server_id path) mid.log_sources ≡ true)
      → any (is_at server_id f.path) mid.log_sources ≡ true
      → Registered server_id files mid db'
      → Registered server_id (f ∷ files) db db'
  unfolding any
  Registered-cons db mid db' kept distinct found here r = record {
    kept = λ s i. r.kept s (kept s i);
    distinct = λ d. r.distinct (distinct d);
    covered = λ p h. elim (Bool-cases (has_path p f)) [
      | inr other ↦ r.covered p (ground arith)
      | inl same ↦
          subst (λ q. any (is_at server_id q) db'.log_sources ≡ true)
            ((text_eq_iff f.path p).0 same) (r.found f.path here)
    ];
    found = λ p h. r.found p (found p h);
  }

  register-known :
      (db : Db)
      → any (is_at server_id f.path) db.log_sources ≡ true
      → register server_id (f ∷ files) db ≡ register server_id files db
  unfolding register
  register-known db h = ground arith

  register-new :
      (db : Db)
      → any (is_at server_id f.path) db.log_sources ≡ false
      → register server_id (f ∷ files) db
        ≡ register server_id files (with_source server_id f.path db)
  unfolding register
  register-new db h = rw (h, register) refl

  with_source-found :
      (db : Db) → any (is_at server_id f.path) (with_source server_id f.path db).log_sources ≡ true
  unfolding any
  with_source-found db =
      any-append (is_at server_id f.path) db.log_sources
        (new_source db.next_source server_id f.path ∷ [])
      ∙ ground (arith, text_eq_refl f.path)

-- Registering the files of a discovery leaves every source as it was, its offset included, keeps the
-- sources distinct, and gives each file a source.
pub register-Registered :
    (server_id : ℕ) (files : List DiscoveredLogFile) (db : Db)
    → Registered server_id files db (register server_id files db)
unfolding register any
register-Registered server_id [] db = record {
  kept = λ s i. i;
  distinct = λ d. d;
  covered = λ p h. cc;
  found = λ p h. h;
}
register-Registered server_id (f ∷ files) db =
    elim (Bool-cases (any (is_at server_id f.path) db.log_sources)) [
      | inl there ↦ rw (register-known server_id f files db there) (
          Registered-cons server_id f files db db (register server_id files db) (λ s i. i) (λ d. d)
            (λ p h. h) there (register-Registered server_id files db))
      | inr new ↦
          let mid = with_source server_id f.path db in
          let n = new_source db.next_source server_id f.path in
          rw (register-new server_id f files db new) (
            Registered-cons server_id f files db mid (register server_id files mid)
              (λ s i. Elem-append s db.log_sources (n ∷ []) i) (Distinct-snoc db.log_sources n new)
              (λ p h. any-append (is_at server_id p) db.log_sources (n ∷ []) ∙ ground arith)
              (with_source-found server_id f files db) (register-Registered server_id files mid))
    ]
