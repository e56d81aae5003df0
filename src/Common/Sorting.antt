-- ===== src/Common/Sorting.antt =====
-- `sort.Slice`: any algorithm that meets its documentation, which promises neither stability nor
-- one particular order of elements that compare equal.
pub mod Keys
pub mod Adjacent
pub mod Unordered
mod Insertion
unfoldable pub use Insertion.{insertion_sorter}
pub use Defs.*
mod Defs
