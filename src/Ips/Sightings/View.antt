-- ===== src/Ips/Sightings/View.antt =====
-- The abstract view of the table of addresses: when each address was seen last. A row's key, its other
-- columns and the order of the rows are forgotten.
pub mod Latest
pub mod Create
pub mod Touch
pub mod Refines
use ip_scout.Prelude.{Option, none, some, Bool, List, [], ◌∷◌, Text, ltb, text_eq, if◌then◌else◌}
use ip_scout.Errors.{ok, raise}
use ip_scout.Models.{Time, IpAddress}
use ip_scout.Ips.Identity.{normalize_ip}
use ip_scout.Ips.Sightings.{Sighting, row_at}

-- The later of two times that may be missing.
abbrev pub later : Option Time → Option Time → Option Time
later none o = o
later (some t) none = some t
later (some t) (some u) = some (if ltb t u then u else t)

abbrev pub seen_of : Option IpAddress → Option Time
seen_of none = none
seen_of (some r) = some r.last_seen_at

-- When an address was seen last.
abbrev pub view : List IpAddress → Text → Option Time
view rows a = seen_of (row_at a rows)

-- The latest of the sightings of an address, whose texts are compared in their normal form.
unfoldable pub seen_in : Text → List Sighting → Option Time
unfolding text_eq
seen_in a [] = none
seen_in a ((raw, t) ∷ sightings) =
    let rest = seen_in a sightings in
    elim (normalize_ip raw) [
      | raise e ↦ rest
      | ok b ↦ if text_eq b a then later (some t) rest else rest
    ]
