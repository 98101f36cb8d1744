-- ===== src/Types.antt =====
-- The data that the binding names. `Imbh` are the types of the `imbh` crate, by the fields and
-- variants that src/*.rs reads; `Proto` are the messages of proto/imbh/v1; `Ffi` are the
-- `#[repr(C)]` types of src/lib.rs and src/query.rs; `Arrow` is what the binding hands to Arrow.
pub mod Imbh
pub mod Proto
pub mod Ffi
pub mod Arrow
pub mod Discriminant
