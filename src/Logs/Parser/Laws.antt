-- ===== src/Logs/Parser/Laws.antt =====
-- A line that parses says what its record says.
use ip_scout.Prelude.{
  ◌≡◌, refl, sym, ap, ◌∙◌, true, Option, none, some, List, [], Text, is_some, arith, Option-cases,
  inl, inr, subst,
}
use ip_scout.Prelude.Int.{ℤ}
use ip_scout.Errors.{ok, >>=-eq-ok, ok-injective}
use ip_scout.Python.Strip.{rstrip_newlines}
use ip_scout.Python.Number.{int}
use ip_scout.Python.Ipaddress.{Address}
use ip_scout.Python.Ipaddress.Network.{ip_address}
use ip_scout.Models.{Time}
use ip_scout.Logs.Format.{Piece, remote_addr, time_local, request, status}
use ip_scout.Logs.Pattern.{Captures, match_pieces, group}
use ip_scout.Logs.Pattern.Laws.{Matches, match_pieces-Matches}
use ip_scout.Logs.Parser.{
  ParsedLine, Conversions, or_empty, split_request, read_time, read_status, read_address,
  parse_captures, parse_line,
}

no_address : {n : Address} → ¬ (ip_address [] ≡ some n)
unfolding ip_address
no_address h = cc

module _ (lib : Conversions) where
  -- A reading of the line by the format, and the fields as its captures give them.
  pub record Reads (pieces : List Piece) (p : ParsedLine) : Type 0 where
    pub captures : Captures
    pub matches : Matches pieces captures p.raw_line
    pub valid_address : is_some (ip_address p.remote_addr) ≡ true
    pub address : group remote_addr captures ≡ some p.remote_addr
    pub time_text : Text
    pub time_captured : group time_local captures ≡ some time_text
    pub timestamp : lib.strptime time_text ≡ some p.timestamp
    pub status_text : Text
    pub status_captured : group status captures ≡ some status_text
    pub code : int status_text ≡ some p.status
    pub request_line : split_request (or_empty (group request captures)) ≡ (p.method, p.uri)

  read_time-ok :
      (o : Option Text) (n : Time)
      → read_time lib o ≡ ok n
      → (t : Text) × (o ≡ some t) × (lib.strptime t ≡ some n)
  read_time-ok none n h = cc
  read_time-ok (some t) n h = (t, refl, ground arith)

  read_status-ok :
      (o : Option Text) (n : ℤ)
      → read_status lib o ≡ ok n
      → (t : Text) × (o ≡ some t) × (int t ≡ some n)
  read_status-ok none n h = cc
  read_status-ok (some t) n h = (t, refl, ground arith)

  read_address-ok :
      (o : Option Text) (a : Text)
      → read_address lib (or_empty o) ≡ ok a
      → (o ≡ some a) × (is_some (ip_address a) ≡ true)
  read_address-ok o a h = elim (Option-cases (ip_address (or_empty o))) [
    | inl wrong ↦ absurd (ground arith)
    | inr (n, found) ↦
        let same : or_empty o ≡ a = ground arith in
        (
          is_there o same (λ e. ap (λ t. ip_address (or_empty t)) (sym e) ∙ found),
          ap (λ t. is_some (ip_address t)) (sym same) ∙ ap is_some found,
        )
  ]
    where
      is_there :
          {n : Address} (t : Option Text)
          → or_empty t ≡ a
          → (t ≡ none → ip_address [] ≡ some n)
          → t ≡ some a
      is_there none e k = absurd (no_address (k refl))
      is_there (some t) e k = ap some e

  parse_captures-Reads :
      (pieces : List Piece) (line : Text) (groups : Captures) (p : ParsedLine)
      → match_pieces pieces line ≡ some groups
      → parse_captures lib line groups ≡ ok p
      → Reads pieces p × (p.raw_line ≡ line)
  unfolding parse_captures
  parse_captures-Reads pieces line groups p m h =
      let (address, a, h1) =
        >>=-eq-ok (read_address lib (or_empty (group remote_addr groups))) _ h in
      let (timestamp, t, h2) = >>=-eq-ok (read_time lib (group time_local groups)) _ h1 in
      let (code, c, h3) = >>=-eq-ok (read_status lib (group status groups)) _ h2 in
      let (there, valid) = read_address-ok (group remote_addr groups) address a in
      let (time_text, time_there, time) = read_time-ok (group time_local groups) timestamp t in
      let (code_text, code_there, number) = read_status-ok (group status groups) code c in
      subst (λ (q : ParsedLine). Reads pieces q × (q.raw_line ≡ line)) (ok-injective _ p h3)
        (
          record {
            captures = groups;
            matches = match_pieces-Matches pieces line groups m;
            valid_address = valid;
            address = there;
            time_text = time_text;
            time_captured = time_there;
            timestamp = time;
            status_text = code_text;
            status_captured = code_there;
            code = number;
            request_line = refl;
          },
          refl,
        )

  -- A line that parses is read by its format from its front to its end, without the line breaks at its
  -- end, and the address, the time, the status, the method and the URI of the result are what the
  -- captures of that reading say; the address is valid.
  pub parse_line-Reads :
      (pieces : List Piece) (raw_line : Text) (p : ParsedLine)
      → parse_line lib pieces raw_line ≡ ok p
      → Reads pieces p × (p.raw_line ≡ rstrip_newlines raw_line)
  unfolding parse_line
  parse_line-Reads pieces raw_line p h =
      let line = rstrip_newlines raw_line in
      elim (Option-cases (match_pieces pieces line)) [
        | inl no_match ↦ absurd (ground arith)
        | inr (groups, m) ↦ parse_captures-Reads pieces line groups p m (ground arith)
      ]
