-- ===== src/Python/Ipaddress.antt =====
-- The module `ipaddress` of Python 3.13, as far as the program uses it: addresses are numbers with
-- their version, and an IPv6 address may have a scope.
pub mod V4
pub mod V6
pub mod Network
use ip_scout.Prelude.{ℕ, ◌+◌, Option, none, some, List, [], ◌∷◌, ◌++◌, Text, Bool}

pub data Address : Type 0 where
  v4 : ℕ → Address
  v6 : ℕ → Text → Address
