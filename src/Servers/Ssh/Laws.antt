-- ===== src/Servers/Ssh/Laws.antt =====
-- `poll_log` against the content of the remote file: what it returns is the file from the offset on.
use ip_scout.Prelude.{
  ℕ, zero, suc, ◌-◌, ◌≤◌, ◌≡◌, refl, sym, ap, ◌∙◌, Bool, true, false, Option, none, some, List, [],
  ◌∷◌, Text, arith, ltb, length, take, drop, length-drop, take_of_length-le, Bool-cases, inl, inr,
  subst, any, text_eq, text_eq_iff,
}
use ip_scout.Errors.{ok, >>=-eq-ok, ok-injective}
use ip_scout.Models.{Server}
use ip_scout.Servers.Ssh.{
  Host, Stat, LogChunk, chunk_of, client, read_start, read_from, poll_log, read_from,
  DiscoveredLogFile, fresh_files, all_files, default_log_dir, discover_logs,
}

-- The remote file has this status and this content, and a range read gives the bytes of the range.
pub record Shows (host : Host) (path : Text) (s : Stat) (content : List ℕ) : Type 0 where
  pub status : host.stat path ≡ ok (some s)
  pub size : s.size ≡ length content
  pub bytes :
      (offset count : ℕ) → host.read path offset count ≡ ok (take count (drop offset content))

drop_of_length-le : (n : ℕ) (xs : List ℕ) → length xs ≤ n → drop n xs ≡ []
drop_of_length-le zero [] h = refl
drop_of_length-le zero (x ∷ xs) h = absurd (omega arith)
drop_of_length-le (suc n) [] h = refl
drop_of_length-le (suc n) (x ∷ xs) h = drop_of_length-le n xs (omega arith)

-- A poll never starts behind the end of the file.
read_start-le : (inode offset : Option ℕ) (s : Stat) → (read_start inode offset s).0 ≤ s.size
unfolding read_start
read_start-le none offset s = omega arith
read_start-le (some i) none s = ground arith
read_start-le (some i) (some o) s = ground arith

module _ (host : Host) (server : Server) (path : Text) (s : Stat) (content : List ℕ)
    (shows : Shows host path s content) where
  range : (o : ℕ) → o ≤ s.size → read_from host path o s ≡ ok (drop o content)
  unfolding read_from
  range o h = elim (Bool-cases (ltb o s.size)) [
    | inl more ↦
        rw (more, read_from)
          (shows.bytes o (s.size - o)
            ∙ ap ok (
                take_of_length-le (s.size - o) (drop o content)
                  (omega (arith, length-drop o content, shows.size))))
    | inr done ↦
        rw (done, read_from)
          (ap ok (sym (drop_of_length-le o content (ground (arith, shows.size)))))
  ]

  pub poll_log-content :
      (inode offset : Option ℕ) (c : LogChunk)
      → poll_log host server path inode offset ≡ ok (some c)
      → (c.offset ≡ (read_start inode offset s).0)
        × (c.rotated ≡ (read_start inode offset s).1)
        × (c.inode ≡ s.inode)
        × (c.offset ≤ length content)
        × (c.data_read ≡ drop c.offset content)
  unfolding poll_log
  poll_log-content inode offset c h =
      let (_, _, h') = >>=-eq-ok (client host server) _ h in
      let start = read_start inode offset s in
      let within = read_start-le inode offset s in
      let bytes = range start.0 within in
      let (status, f, h1) = >>=-eq-ok (host.stat path) _ h' in
      let there : status ≡ some s = ok-injective status (some s) (sym f ∙ shows.status) in
      let e : chunk_of host start s (drop start.0 content) ≡ c = ground (arith, there, bytes) in
      rw (← e) (refl, refl, refl, omega (arith, within, shows.size), refl)

  -- If the session opens, a poll of a file that is there returns a chunk.
  pub poll_log_total :
      (inode offset : Option ℕ)
      → client host server ≡ ok tt
      → (c : LogChunk) × (poll_log host server path inode offset ≡ ok (some c))
  unfolding poll_log
  poll_log_total inode offset open_session =
      let start = read_start inode offset s in
      let bytes = range start.0 (read_start-le inode offset s) in
      (
        chunk_of host start s (drop start.0 content),
        rw open_session (rw (shows.status) (rw bytes refl)),
      )

  -- A file that is there is not reported as missing.
  pub poll_log-ne-none :
      (inode offset : Option ℕ) → ¬ (poll_log host server path inode offset ≡ ok none)
  unfolding poll_log
  poll_log-ne-none inode offset h =
      let (_, _, h') = >>=-eq-ok (client host server) _ h in ground (arith, shows.status)

-- The paths of a list of files.
abbrev pub has_path : Text → DiscoveredLogFile → Bool
has_path path f = text_eq f.path path

-- No file has the path of an earlier one or one of the given paths.
pub data Fresh : List Text → List DiscoveredLogFile → Type 0 where
  done : {seen : List Text} → Fresh seen []
  next :
      {seen : List Text} {f : DiscoveredLogFile} {files : List DiscoveredLogFile}
      → any (text_eq f.path) seen ≡ false
      → Fresh (f.path ∷ seen) files
      → Fresh seen (f ∷ files)

module _ (seen : List Text) (f : DiscoveredLogFile) (files : List DiscoveredLogFile) where
  fresh_files-known :
      any (text_eq f.path) seen ≡ true → fresh_files seen (f ∷ files) ≡ fresh_files seen files
  unfolding fresh_files
  fresh_files-known h = ground arith

  fresh_files-new :
      any (text_eq f.path) seen ≡ false
      → fresh_files seen (f ∷ files) ≡ f ∷ fresh_files (f.path ∷ seen) files
  unfolding fresh_files
  fresh_files-new h = ground arith

fresh_files-Fresh :
    (seen : List Text) (files : List DiscoveredLogFile) → Fresh seen (fresh_files seen files)
unfolding fresh_files
fresh_files-Fresh seen [] = done
fresh_files-Fresh seen (f ∷ files) = elim (Bool-cases (any (text_eq f.path) seen)) [
  | inl known ↦ rw (fresh_files-known seen f files known) (fresh_files-Fresh seen files)
  | inr new ↦
      rw (fresh_files-new seen f files new) (next new (fresh_files-Fresh (f.path ∷ seen) files))
]

any-same :
    (path path' : Text) (seen : List Text)
    → text_eq path path' ≡ true
    → any (text_eq path) seen ≡ any (text_eq path') seen
any-same path path' seen h =
    let e : path ≡ path' = ground (arith, text_eq_iff path path') in
    ap (λ p. any (text_eq p) seen) e

text_eq_comm : (s t : Text) → text_eq s t ≡ true → text_eq t s ≡ true
text_eq_comm s t h = ground (arith, text_eq_iff s t, text_eq_iff t s)

fresh_files_complete :
    (path : Text) (seen : List Text) (files : List DiscoveredLogFile)
    → any (has_path path) files ≡ true
    → any (text_eq path) seen ≡ false
    → any (has_path path) (fresh_files seen files) ≡ true
unfolding fresh_files any
fresh_files_complete path seen [] h new = cc
fresh_files_complete path seen (f ∷ files) h new = elim (Bool-cases (any (text_eq f.path) seen)) [
  | inl known ↦
      rw (fresh_files-known seen f files known)
        (ground (arith, fresh_files_complete path seen files, any-same f.path path seen))
  | inr other ↦
      rw (fresh_files-new seen f files other)
        (ground (arith, fresh_files_complete path (f.path ∷ seen) files, text_eq_comm path f.path))
]

-- The files that a discovery reports have pairwise different paths, and every path that one of the directories lists is among them.
pub discover_logs-Fresh :
    (host : Host) (server : Server) (extra_paths : List Text) (files : List DiscoveredLogFile)
    → discover_logs host server extra_paths ≡ ok files
    → Fresh [] files
      × ((path : Text)
          → any (has_path path) (all_files host (default_log_dir ∷ extra_paths)) ≡ true
          → any (has_path path) files ≡ true)
unfolding discover_logs any
discover_logs-Fresh host server extra_paths files h =
    let (_, _, h') = >>=-eq-ok (client host server) _ h in
    let listed = all_files host (default_log_dir ∷ extra_paths) in
    subst
      (λ fs.
        Fresh [] fs
        × ((path : Text) → any (has_path path) listed ≡ true → any (has_path path) fs ≡ true))
      (ok-injective (fresh_files [] listed) files h')
      (fresh_files-Fresh [] listed, λ path i. fresh_files_complete path [] listed i refl)
