-- ===== src/Iran.antt =====
-- apps/iran: the networks of the country, the classification of addresses, the monthly validation,
-- the sources of networks, and the export.
pub mod Match
pub mod Classify
pub mod Providers
pub mod Validation
pub mod Tasks
pub mod Export
pub mod Pages
use ip_scout.Prelude.{Text, codes}

abbrev pub iran_country_code : Text
iran_country_code = codes "IR"
