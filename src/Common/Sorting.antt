-- ===== src/Common/Sorting.antt =====
-- Sorting of a slice: the definitions and their laws.
mod Defs
mod Laws
mod Texts
unfoldable pub use Defs.{insert, sort}
pub use Laws.*
pub use Texts.*
