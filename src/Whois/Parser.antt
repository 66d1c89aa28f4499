-- ===== src/Whois/Parser.antt =====
-- apps/whois/parsers.py: `parse_generic` and `extract_known_fields`.
pub mod Laws
use ip_scout.Prelude.{
  ℕ, ◌≡◌, refl, Bool, true, false, not, ◌&&◌, ◌||◌, Option, none, some, List, [], ◌∷◌, ◌++◌, Text,
  ◌==◌, between, codes, text_eq, if◌then◌else◌, map, any,
}
use ip_scout.Python.Strip.{is_nil, strip, ascii_lower}
use ip_scout.Python.Split.{splitlines, starts_with}

-- A dict from keys to their values, in the order in which the keys came.
abbrev pub Fields : Type 0
Fields = List (Text × List Text)

pub is_letter : ℕ → Bool
is_letter c = between b'A' b'Z' c || between b'a' b'z' c

pub is_key_char : ℕ → Bool
unfolding is_letter
is_key_char c = is_letter c || between b'0' b'9' c || (c == b' ') || (c == b'_') || (c == b'-')

-- What stands before the first colon, if that is made of characters of keys, and what stands after it.
unfoldable pub key_and_rest : Text → Option (Text × Text)
unfolding is_key_char
key_and_rest [] = none
key_and_rest (c ∷ s) =
    let rest = key_and_rest s in
    if c == b':'
    then some ([], s)
    else if is_key_char c
    then elim rest [ none ↦ none | some (k, v) ↦ some (c ∷ k, v) ]
    else none

-- _KEY_RE.match(line) on a line without line breaks: the two groups. The white space behind the
-- colon stays with the value, which is stripped.
unfoldable pub match_key : Text → Option (Text × Text)
unfolding key_and_rest is_letter
match_key [] = none
match_key (c ∷ s) = if is_letter c then key_and_rest (c ∷ s) else none

-- _normalize_key
unfoldable pub normalize_key : Text → Text
unfolding strip ascii_lower
normalize_key key = map (λ c. if c == b' ' || c == b'-' then b'_' else c) (ascii_lower (strip key))

-- The pair that a stripped line adds to the fields, if it adds one.
unfoldable pub field_in : Text → Option (Text × Text)
unfolding match_key normalize_key strip starts_with
field_in line =
    if is_nil line || starts_with line (codes "%") || starts_with line (codes "#")
    then none
    else elim (match_key line) [
      | none ↦ none
      | some (k, v) ↦
          let key = normalize_key k in
          let value = strip v in if is_nil key || is_nil value then none else some (key, value)
    ]

unfoldable pub field_of : Text → Option (Text × Text)
unfolding field_in strip
field_of raw_line = field_in (strip raw_line)

-- fields[key].append(value)
unfoldable pub append_value : Text → Text → Fields → Fields
unfolding text_eq
append_value key value [] = (key, value ∷ []) ∷ []
append_value key value ((k, vs) ∷ fields) =
    let rest = append_value key value fields in
    if text_eq k key then (k, vs ++ value ∷ []) ∷ fields else (k, vs) ∷ rest

unfoldable pub read_lines : List Text → Fields → Fields
read_lines [] fields = fields
read_lines (line ∷ lines) fields = elim (field_of line) [
  | none ↦ read_lines lines fields
  | some (k, v) ↦ read_lines lines (append_value k v fields)
]

unfoldable pub parse_generic : Text → Fields
unfolding read_lines splitlines field_of append_value
parse_generic raw = read_lines (splitlines raw) []

-- parsed.get(key, [])
unfoldable pub values_of : Text → Fields → List Text
unfolding text_eq
values_of key [] = []
values_of key ((k, vs) ∷ fields) =
    let rest = values_of key fields in if text_eq k key then vs else rest

-- The first value of the first alias that has one.
unfoldable pub first_alias : List Text → Fields → Option Text
unfolding values_of
first_alias [] parsed = none
first_alias (alias ∷ aliases) parsed =
    let rest = first_alias aliases parsed in
    elim (values_of alias parsed) [ [] ↦ rest | v ∷ _ ↦ some v ]

-- _FIELD_ALIASES
unfoldable pub field_aliases : List (Text × List Text)
field_aliases =
    (codes "inetnum", codes "inetnum" ∷ codes "netrange" ∷ codes "cidr" ∷ codes "inet6num" ∷ [])
    ∷ (codes "netname", codes "netname" ∷ [])
    ∷ (codes "country", codes "country" ∷ [])
    ∷ (
      codes "organization",
      codes "orgname" ∷ codes "org_name" ∷ codes "organization" ∷ codes "owner" ∷ codes "org" ∷ [],
    )
    ∷ (codes "descr", codes "descr" ∷ [])
    ∷ (codes "origin", codes "origin" ∷ [])
    ∷ (codes "route", codes "route" ∷ codes "route6" ∷ [])
    ∷ (codes "mnt_by", codes "mnt_by" ∷ [])
    ∷ (
      codes "abuse_email",
      codes "abuse_mailbox" ∷ codes "orgabuseemail" ∷ codes "abuse_email" ∷ [],
    )
    ∷ []

unfoldable pub known_fields : List (Text × List Text) → Fields → List (Text × Text)
unfolding first_alias
known_fields [] parsed = []
known_fields ((canonical, aliases) ∷ table) parsed =
    let rest = known_fields table parsed in
    elim (first_alias aliases parsed) [ none ↦ rest | some v ↦ (canonical, v) ∷ rest ]

unfoldable pub extract_known_fields : Fields → List (Text × Text)
unfolding known_fields field_aliases
extract_known_fields = known_fields field_aliases

-- known.get(key)
unfoldable pub known : Text → List (Text × Text) → Option Text
unfolding text_eq
known key [] = none
known key ((k, v) ∷ fields) = let rest = known key fields in if text_eq k key then some v else rest
