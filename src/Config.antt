-- ===== src/Config.antt =====
-- config/env.py: the typed getters of environment variables.
pub mod Laws
use ip_scout.Prelude.{
  ℕ, Option, none, some, Bool, true, false, not, ◌||◌, List, [], ◌∷◌, ◌++◌, Text, codes, text_eq,
  filter, map, if◌then◌else◌, ◌==◌,
}
use ip_scout.Prelude.Int.{ℤ}
use ip_scout.Errors.{Outcome, ok, raise, value_error}
use ip_scout.Python.Strip.{is_nil, strip, ascii_lower}
use ip_scout.Python.Split.{split}
use ip_scout.Python.Number.{int}

abbrev pub Environ : Type 0
Environ = Text → Option Text

-- env and env_str, with the default that they are given
unfoldable pub env_str : Environ → Text → Text → Text
env_str environ key default = elim (environ key) [ none ↦ default | some v ↦ v ]

-- env_bool on ASCII values; only ASCII texts lower to the four words.
unfoldable pub env_bool : Environ → Text → Bool → Bool
unfolding strip ascii_lower text_eq
env_bool environ key default = elim (environ key) [
  | none ↦ default
  | some v ↦
      let word = ascii_lower (strip v) in
      text_eq word (codes "1")
      || text_eq word (codes "true")
      || text_eq word (codes "yes")
      || text_eq word (codes "on")
]

unfoldable pub env_int : Environ → Text → ℤ → Outcome ℤ
unfolding int
env_int environ key default = elim (environ key) [
  | none ↦ ok default
  | some v ↦
      if is_nil v then ok default else elim (int v) [ none ↦ raise value_error | some n ↦ ok n ]
]

-- The items of a list, without those that are blank.
unfoldable pub items : ℕ → Text → List Text
unfolding split strip filter
items separator value = filter (λ t. not (is_nil t)) (map strip (split separator value))

-- env_list with a separator of one character
unfoldable pub env_list : Environ → Text → Option (List Text) → ℕ → List Text
env_list environ key default separator =
    let fallback : List Text = elim default [ none ↦ [] | some d ↦ d ] in
    elim (environ key) [
      | none ↦ fallback
      | some v ↦ if is_nil v then fallback else items separator v
    ]

-- What urlparse reads of a URL.
pub record ParsedUrl : Type 0 where
  pub scheme : Text
  pub path : Text
  pub username : Option Text
  pub password : Option Text
  pub hostname : Option Text
  pub port : Option Text

pub record Database : Type 0 where
  pub name : Text
  pub user : Text
  pub password : Text
  pub host : Text
  pub port : Text

lstrip_slash : Text → Text
lstrip_slash [] = []
lstrip_slash (c ∷ s) = let rest = lstrip_slash s in if c == b'/' then rest else c ∷ s

abbrev or_empty : Option Text → Text
or_empty none = []
or_empty (some t) = t

-- str(parsed.port or 5432); the port is its decimal text, and 0 counts as none
abbrev port_of : Option Text → Text
port_of none = codes "5432"
port_of (some t) = if text_eq t (codes "0") then codes "5432" else t

unfoldable pub parse_database_url : ParsedUrl → Outcome Database
unfolding text_eq lstrip_slash
parse_database_url parsed =
    if text_eq parsed.scheme (codes "postgres") || text_eq parsed.scheme (codes "postgresql")
    then ok (record {
      name = lstrip_slash parsed.path;
      user = or_empty parsed.username;
      password = or_empty parsed.password;
      host = or_empty parsed.hostname;
      port = port_of parsed.port;
    })
    else raise value_error
