-- ===== src/Logs/Reader/Lines.antt =====
-- apps/logs/services.py: no line that is read makes the parsing raise.
use ip_scout.Prelude.{
  Elem, sym, suc, ◌+◌, ◌≡◌, refl, ap, ◌∙◌, Option, none, some, List, [], ◌∷◌, Text, arith, length,
  All, is_some, Option-cases, inl, inr,
}
use ip_scout.Errors.{Error, ok, raise, log_parse_error, Outcome-cases}
use ip_scout.Python.Strip.{rstrip_newlines}
use ip_scout.Python.Ipaddress.Network.{ip_address}
use ip_scout.Python.Number.{int}
use ip_scout.Ips.Identity.Laws.{strip_fixed}
use ip_scout.Ips.Identity.Total.{normalize_ip_total}
use ip_scout.Ips.Sightings.Total.{Readable}
use ip_scout.Logs.Format.{Piece, remote_addr, time_local, status}
use ip_scout.Logs.Parser.Laws.{parse_line-Reads}
use ip_scout.Logs.Pattern.Remote.{Matches-no_space}
use ip_scout.Logs.Pattern.{Captures, match_pieces, group}
use ip_scout.Logs.Parser.{
  ParsedLine, Conversions, or_empty, read_time, read_status, read_address, parse_captures,
  parse_line,
}
use ip_scout.Logs.Reader.{ParsedLines, parse_all}

module _ (lib : Conversions) where
  read_address-error : (t : Text) (e : Error) → read_address lib t ≡ raise e → e ≡ log_parse_error
  read_address-error t e h = elim (Option-cases (ip_address t)) [
    | inl wrong ↦ ground arith
    | inr (n, found) ↦ absurd (ground arith)
  ]

  read_time-error : (o : Option Text) (e : Error) → read_time lib o ≡ raise e → e ≡ log_parse_error
  read_time-error none e h = ground arith
  read_time-error (some t) e h = elim (Option-cases (lib.strptime t)) [
    | inl wrong ↦ ground arith
    | inr (n, found) ↦ absurd (ground arith)
  ]

  read_status-error :
      (o : Option Text) (e : Error) → read_status lib o ≡ raise e → e ≡ log_parse_error
  read_status-error none e h = ground arith
  read_status-error (some t) e h = elim (Option-cases (int t)) [
    | inl wrong ↦ ground arith
    | inr (n, found) ↦ absurd (ground arith)
  ]

  parse_captures-error :
      (line : Text) (groups : Captures) (e : Error)
      → parse_captures lib line groups ≡ raise e
      → e ≡ log_parse_error
  unfolding parse_captures
  parse_captures-error line groups e h =
      elim (Outcome-cases (read_address lib (or_empty (group remote_addr groups)))) [
        | inl (x, f) ↦
            let same = read_address-error (or_empty (group remote_addr groups)) x f in ground arith
        | inr (address, f) ↦ elim (Outcome-cases (read_time lib (group time_local groups))) [
          | inl (x, g) ↦ let same = read_time-error (group time_local groups) x g in ground arith
          | inr (time, g) ↦ elim (Outcome-cases (read_status lib (group status groups))) [
            | inl (x, k) ↦ let same = read_status-error (group status groups) x k in ground arith
            | inr (code, k) ↦ absurd (ground arith)
          ]
        ]
      ]

  -- A line parses, or is refused with the error that the loop counts.
  parse_line-error :
      (pattern : List Piece) (line : Text) (e : Error)
      → parse_line lib pattern line ≡ raise e
      → e ≡ log_parse_error
  unfolding parse_line
  parse_line-error pattern line e h =
      elim (Option-cases (match_pieces pattern (rstrip_newlines line))) [
        | inl no_match ↦ ground arith
        | inr (groups, m) ↦ parse_captures-error (rstrip_newlines line) groups e (ground arith)
      ]

  -- The address of a line that parses has a normal form: neither of the two conversions raises.
  parse_line-Readable :
      (pattern : List Piece) (line : Text) (p : ParsedLine)
      → parse_line lib pattern line ≡ ok p
      → Readable p.remote_addr
  parse_line-Readable pattern line p h =
      let r = (parse_line-Reads lib pattern line p h).0 in
      let no_space =
        Matches-no_space pattern r.captures p.raw_line p.remote_addr r.matches r.address in
      let (a, e, v, f) =
        normalize_ip_total p.remote_addr (
          ap (λ t. is_some (ip_address t)) (strip_fixed p.remote_addr no_space)
          ∙ r.valid_address) in
      (a, e, (v, f))

  -- Every line is parsed or counted as an error.
  pub parse_all_total :
      (pattern : List Piece) (lines : List Text)
      → (out : ParsedLines) × (parse_all lib pattern lines ≡ ok out)
        × All (λ (p : ParsedLine). Readable p.remote_addr) out.parsed_lines
        × (length out.parsed_lines + out.parse_errors ≡ length lines)
        × ((p : ParsedLine)
            → Elem p out.parsed_lines
            → (line : Text) × Elem line lines × (parse_line lib pattern line ≡ ok p))
  unfolding parse_all
  parse_all_total pattern [] =
      (record { parsed_lines = []; parse_errors = 0 }, refl, tt, omega arith, λ p i. absurd i)
  parse_all_total pattern (line ∷ lines) =
      let (q, f, all, count, from) = parse_all_total pattern lines in
      elim (Outcome-cases (parse_line lib pattern line)) [
        | inl (e, g) ↦
            let same : parse_line lib pattern line ≡ raise log_parse_error =
              g ∙ ap raise (parse_line-error pattern line e g) in
            (
              record q { parse_errors = suc q.parse_errors },
              rw (same, parse_all) (rw f refl),
              all,
              omega arith,
              λ x i. let (l, j, h) = from x i in (l, inr j, h),
            )
        | inr (p, g) ↦ (
          record q { parsed_lines = p ∷ q.parsed_lines },
          rw (g, parse_all) (rw f refl),
          (parse_line-Readable pattern line p g, all),
          omega arith,
          λ x i. elim i [
            | inl same ↦ (line, inl refl, g ∙ ap ok (sym same))
            | inr later ↦ let (l, j, h) = from x later in (l, inr j, h)
          ],
        )
      ]
