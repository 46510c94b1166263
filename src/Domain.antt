-- ===== src/Domain.antt =====
-- web/src/domain.ts: the records that the pages exchange with the API, and their display helpers.
-- A missing field or null is `none`; ids, counts and states are natural numbers.
mod Records
pub mod Maps
pub mod Params
pub mod Format
pub mod Tests
pub use Records.*
