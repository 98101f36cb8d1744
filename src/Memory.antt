-- ===== src/Memory.antt =====
-- The memory that the C caller and the binding share, and the bodies that run over it.
-- A pointer names one object, which a `Cell` describes; an address is never given out twice, so a
-- use after free is seen. A dereference of a pointer that is neither null nor names an object of
-- the right kind is undefined behaviour, the outcome `undefined`.
mod Cells
mod Body
pub mod Commits
pub mod Steps
pub use Cells.*
unfoldable pub use Body.*
