-- ===== src/Whois/Parser/Laws.antt =====
-- The fields of a response against its lines.
use ip_scout.Prelude.{
  subst, codes, ℕ, All, between, ◌==◌, ◌||◌, ◌≡◌, refl, sym, ap, ◌∙◌, Bool, true, false, Option,
  none, some, List, [], ◌∷◌, ◌++◌, Text, text_eq, text_eq_iff, if◌then◌else◌, arith, Bool-cases,
  Option-cases, inl, inr, append_assoc, append-nil,
}
use mathlib.Core.Path.{ap₂}
use ip_scout.Python.Strip.{is_nil, strip}
use ip_scout.Python.Split.{splitlines, starts_with}
use ip_scout.Whois.Parser.{
  Fields, is_letter, is_key_char, key_and_rest, match_key, normalize_key, field_in, field_of,
  append_value, read_lines, parse_generic, values_of,
}

-- The value that a pair gives to a key.
abbrev value_for : Text → Option (Text × Text) → List Text
value_for key none = []
value_for key (some (k, v)) = if text_eq k key then v ∷ [] else []

values_of-append_value :
    (key k v : Text) (fields : Fields)
    → values_of key (append_value k v fields) ≡ values_of key fields ++ value_for key (some (k, v))
unfolding values_of append_value
values_of-append_value key k v [] = ground arith
values_of-append_value key k v ((k', vs) ∷ fields) = elim (Bool-cases (text_eq k' k)) [
  | inl same ↦
      let e : k' ≡ k = (text_eq_iff k' k).0 same in
      let e' : text_eq k' key ≡ text_eq k key = ap (λ x. text_eq x key) e in
      rw same (joined (text_eq k' key) (text_eq k key) e')
  | inr other ↦
      rw other (apart (text_eq k' key) (differ other) (values_of-append_value key k v fields))
]
  where
    differ : text_eq k' k ≡ false → text_eq k' key ≡ true → text_eq k key ≡ false
    differ other here =
        let e : k' ≡ key = (text_eq_iff k' key).0 here in
        ground (arith, text_eq_iff k key, ap (text_eq k') (sym e), text_eq_iff k' k)

    joined :
        (b c : Bool)
        → b ≡ c
        → (if b then vs ++ v ∷ [] else values_of key fields)
          ≡ (if b then vs else values_of key fields) ++ (if c then v ∷ [] else [])
    joined true true e = refl
    joined false false e = sym (append-nil (values_of key fields))
    joined true false e = cc
    joined false true e = cc

    apart :
        (b : Bool)
        → (b ≡ true → text_eq k key ≡ false)
        → values_of key (append_value k v fields)
          ≡ values_of key fields ++ value_for key (some (k, v))
        → (if b then vs else values_of key (append_value k v fields))
          ≡ (if b then vs else values_of key fields) ++ value_for key (some (k, v))
    apart true ne rest = rw (ne refl) (sym (append-nil vs))
    apart false ne rest = rest

module _ (line : Text) (lines : List Text) (fields : Fields) where
  read_lines-none :
      field_of line ≡ none → read_lines (line ∷ lines) fields ≡ read_lines lines fields
  unfolding read_lines
  read_lines-none h = rw (h, read_lines) refl

  read_lines-some :
      (k v : Text)
      → field_of line ≡ some (k, v)
      → read_lines (line ∷ lines) fields ≡ read_lines lines (append_value k v fields)
  unfolding read_lines
  read_lines-some k v h = rw (h, read_lines) refl

abbrev pub is_name_char : ℕ → Bool
is_name_char c =
    (between b'A' b'Z' c || between b'a' b'z' c)
    || between b'0' b'9' c
    || (c == b' ')
    || (c == b'_')
    || (c == b'-')

-- A line is a field: behind the white space at its front stands a name, which starts with a letter and goes
-- on with letters, digits, spaces, underscores and dashes, then a colon, and a value that is not blank. A
-- line that starts with "%" or "#" is none, since the name starts with a letter.
pub record IsField (line key value : Text) : Type 0 where
  pub letter : ℕ
  pub name : Text
  pub rest : Text
  pub parts : strip line ≡ letter ∷ name ++ b':' ∷ rest
  pub starts : (between b'A' b'Z' letter || between b'a' b'z' letter) ≡ true
  pub goes_on : All (λ c. is_name_char c ≡ true) name
  pub key_of_name : key ≡ normalize_key (letter ∷ name)
  pub named : is_nil key ≡ false
  pub value_of_rest : value ≡ strip rest
  pub filled : is_nil value ≡ false

-- The values that lines have for a key, in order: each field of the key adds its value, and no other line
-- adds anything.
pub data Collected (key : Text) : List Text → List Text → Type 0 where
  no_line : Collected key [] []
  field :
      {line value : Text} {lines values : List Text}
      → IsField line key value
      → Collected key lines values
      → Collected key (line ∷ lines) (value ∷ values)
  other :
      {line : Text} {lines values : List Text}
      → ((value : Text) → ¬ (IsField line key value))
      → Collected key lines values
      → Collected key (line ∷ lines) values

key_and_rest-parts :
    (s name rest : Text)
    → key_and_rest s ≡ some (name, rest)
    → (s ≡ name ++ b':' ∷ rest) × All (λ c. is_name_char c ≡ true) name
unfolding key_and_rest is_key_char is_letter
key_and_rest-parts [] name rest h = absurd (ground arith)
key_and_rest-parts (c ∷ s) name rest h = elim (Bool-cases (c == b':')) [
  | inl colon ↦
      let e : [] ≡ name = ground arith in
      let f : s ≡ rest = ground arith in
      let g : c ≡ b':' = ground arith in
      subst (λ n. (c ∷ s ≡ n ++ b':' ∷ rest) × All (λ d. is_name_char d ≡ true) n) e
        (ap (λ d. d ∷ s) g ∙ ap (◌∷◌ b':') f, tt)
  | inr letter ↦ elim (Bool-cases (is_name_char c)) [
    | inr bad ↦ absurd (ground arith)
    | inl good ↦ elim (Option-cases (key_and_rest s)) [
      | inl missing ↦ absurd (ground arith)
      | inr ((k, v), found) ↦
          let (parts, all) = key_and_rest-parts s k v found in
          let e : c ∷ k ≡ name = ground arith in
          let f : v ≡ rest = ground arith in
          subst (λ n. (c ∷ s ≡ n ++ b':' ∷ rest) × All (λ d. is_name_char d ≡ true) n) e
            (ap (◌∷◌ c) (parts ∙ ap (λ r. k ++ b':' ∷ r) f), (good, all))
    ]
  ]
]

parts-key_and_rest :
    (name rest : Text)
    → All (λ c. is_name_char c ≡ true) name
    → key_and_rest (name ++ b':' ∷ rest) ≡ some (name, rest)
unfolding key_and_rest is_key_char is_letter
parts-key_and_rest [] rest all = refl
parts-key_and_rest (c ∷ name) rest (h, all) =
    let other : (c == b':') ≡ false = ground arith in
    rw (other, key_and_rest) (rw (h, key_and_rest) (rw (parts-key_and_rest name rest all) refl))

module _ (line key value name rest : Text) (c : ℕ) (s : Text) (stripped : strip line ≡ c ∷ s)
    (letter : is_letter c ≡ true) (found : key_and_rest (c ∷ s) ≡ some (name, rest))
    (key_of_name : key ≡ normalize_key name) (named : is_nil key ≡ false)
    (value_of_rest : value ≡ strip rest) (filled : is_nil value ≡ false) where
  named-IsField : IsField line key value
  unfolding is_letter
  named-IsField =
      let (parts, all) = key_and_rest-parts (c ∷ s) name rest found in
      by_name name parts all key_of_name
    where
      by_name :
          (n : Text)
          → c ∷ s ≡ n ++ b':' ∷ rest
          → All (λ d. is_name_char d ≡ true) n
          → key ≡ normalize_key n
          → IsField line key value
      by_name [] parts all k = let colon : c ≡ b':' = ground arith in absurd (ground arith)
      by_name (d ∷ n) parts (_, all) k =
          let same : c ≡ d = ground arith in
          record {
            letter = d;
            name = n;
            rest = rest;
            parts = stripped ∙ parts;
            starts = ap is_letter (sym same) ∙ letter;
            goes_on = all;
            key_of_name = k;
            named = named;
            value_of_rest = value_of_rest;
            filled = filled;
          }

field_in-IsField :
    (line key value s : Text)
    → strip line ≡ s
    → field_in s ≡ some (key, value)
    → IsField line key value
unfolding field_in match_key
field_in-IsField line key value [] e h = absurd (ground arith)
field_in-IsField line key value (c ∷ s) e h =
    elim (Bool-cases (starts_with (c ∷ s) (codes "%") || starts_with (c ∷ s) (codes "#"))) [
      | inl comment ↦ absurd (ground arith)
      | inr no_comment ↦ elim (Bool-cases (is_letter c)) [
        | inr bad ↦ absurd (ground arith)
        | inl letter ↦ elim (Option-cases (key_and_rest (c ∷ s))) [
          | inl missing ↦ absurd (ground arith)
          | inr ((name, rest), found) ↦
              elim (Bool-cases (is_nil (normalize_key name) || is_nil (strip rest))) [
                | inl empty ↦ absurd (ground arith)
                | inr full ↦
                    let k : normalize_key name ≡ key = ground arith in
                    let v : strip rest ≡ value = ground arith in
                    named-IsField line key value name rest c s e letter found (sym k)
                      (ap is_nil (sym k) ∙ ground arith) (sym v) (ap is_nil (sym v) ∙ ground arith)
              ]
        ]
      ]
    ]

field_of-IsField :
    (line key value : Text) → field_of line ≡ some (key, value) → IsField line key value
unfolding field_of
field_of-IsField line key value h = field_in-IsField line key value (strip line) refl h

letter-char : (c : ℕ) → is_letter c ≡ true → is_name_char c ≡ true
unfolding is_letter
letter-char c h = ground arith

letter-no_comment :
    (c : ℕ) (s : Text)
    → is_letter c ≡ true
    → (starts_with (c ∷ s) (codes "%") || starts_with (c ∷ s) (codes "#")) ≡ false
unfolding is_letter starts_with
letter-no_comment c s h = ground arith

match_key-letter :
    (c : ℕ) (s : Text) → is_letter c ≡ true → match_key (c ∷ s) ≡ key_and_rest (c ∷ s)
unfolding match_key
match_key-letter c s h = rw (h, match_key) refl

in_parts :
    (c : ℕ) (s name rest : Text)
    → is_letter c ≡ true
    → key_and_rest (c ∷ s) ≡ some (name, rest)
    → (is_nil (normalize_key name) || is_nil (strip rest)) ≡ false
    → field_in (c ∷ s) ≡ some (normalize_key name, strip rest)
unfolding field_in
in_parts c s name rest letter found full =
    let key = match_key-letter c s letter ∙ found in
    rw (letter-no_comment c s letter, field_in) (rw (key, field_in) (rw full refl))

IsField-field_of :
    (line key value : Text) → IsField line key value → field_of line ≡ some (key, value)
unfolding field_of is_letter
IsField-field_of line key value f =
    let found =
      parts-key_and_rest (f.letter ∷ f.name) f.rest (letter-char f.letter f.starts, f.goes_on) in
    let full : (is_nil (normalize_key (f.letter ∷ f.name)) || is_nil (strip f.rest)) ≡ false =
      let a = ap is_nil (sym f.key_of_name) ∙ f.named in
      let b = ap is_nil (sym f.value_of_rest) ∙ f.filled in ground arith in
    ap field_in f.parts
    ∙ in_parts f.letter (f.name ++ b':' ∷ f.rest) (f.letter ∷ f.name) f.rest f.starts found full
    ∙ ap some (ap₂ (λ (x y : Text). (x, y)) (sym f.key_of_name) (sym f.value_of_rest))

read_lines-Collected :
    (key : Text) (lines : List Text) (fields : Fields)
    → (values : List Text) × (values_of key (read_lines lines fields)
        ≡ values_of key fields ++ values)
      × Collected key lines values
unfolding read_lines
read_lines-Collected key [] fields = ([], sym (append-nil (values_of key fields)), no_line)
read_lines-Collected key (line ∷ lines) fields = elim (Option-cases (field_of line)) [
  | inl skipped ↦
      let (values, e, c) = read_lines-Collected key lines fields in
      (
        values,
        ap (values_of key) (read_lines-none line lines fields skipped) ∙ e,
        other (λ v f. let g = IsField-field_of line key v f in absurd (ground arith)) c,
      )
  | inr ((k, v), found) ↦
      let (values, e, c) = read_lines-Collected key lines (append_value k v fields) in
      let whole =
        ap (values_of key) (read_lines-some line lines fields k v found)
        ∙ e
        ∙ ap (λ vs. vs ++ values) (values_of-append_value key k v fields)
        ∙ append_assoc (values_of key fields) (value_for key (some (k, v))) values in
      elim (Bool-cases (text_eq k key)) [
        | inl same ↦
            let here : k ≡ key = (text_eq_iff k key).0 same in
            (
              v ∷ values,
              whole ∙ rw same refl,
              field (subst (λ x. IsField line x v) here (field_of-IsField line k v found)) c,
            )
        | inr apart ↦ (
          values,
          whole ∙ rw apart refl,
          other
              (λ w f.
                let g = sym found ∙ IsField-field_of line key w f in
                let here : k ≡ key = ground arith in
                let there = (text_eq_iff k key).1 here in absurd (ground arith))
              c,
        )
      ]
]

-- The values that a response has for a key are those of its fields of that key, in the order of the lines;
-- a line that is no field, such as a blank one or a comment, adds nothing.
pub parse_generic-Collected :
    (raw key : Text) → Collected key (splitlines raw) (values_of key (parse_generic raw))
unfolding parse_generic values_of
parse_generic-Collected raw key =
    let (values, e, c) = read_lines-Collected key (splitlines raw) [] in
    subst (Collected key (splitlines raw)) (sym e) c
