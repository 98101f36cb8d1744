-- ===== src/Lib.antt =====
-- Verification of imbh-c, the C binding of the IMBH observability database (src/*.rs).
--
-- The program. Every extern "C" function takes raw pointers, runs its body inside `guard`, which
-- turns errors and panics into an `imbh_error` code and a per-thread message, calls the engine through
-- the handle's runtime, and writes its results through out-parameters. Query builders are boxed
-- messages that the caller fills in by setters and hands to a query call. Results leave as Arrow
-- streams, C structs or owned buffers.
--
-- The files, by the code they model:
--   Error       src/error.rs: `guard`, `classify`, the thread's last message
--   Pointers    the pointer helpers of src/lib.rs and src/query.rs: handles, C strings, arrays, buffers
--   Options     `build_options` of src/lib.rs, the settings of the engine's builder as documented, and
--               what each field of the options struct asks for
--   Lifecycle   open, close and free of src/lib.rs
--   Tables      the table selector of src/lib.rs
--   Ingest      the OTLP calls of src/lib.rs and their receipts
--   Ops         flush to export of src/lib.rs
--   Sql         the SQL calls of src/lib.rs
--   Arrow       src/arrow_stream.rs
--   Discovery   src/discovery.rs
--   Query       src/query.rs: the five builders and a caller of each, the typed queries, paging
--   Lgtm        src/lgtm.rs
--   Api         the calls that take a database handle, as one type, and the three that open one, with
--               what holds of all of them
--   Types       the C structs and enums, and the types of the crates that the binding names
--   Memory      the store, and the body of an entry point as an action on it
--   Engine      the crates imbh, arrow and tokio: every call that the binding makes is a field
--   Common      shared notation, lists, 64-bit integers, UTF-8
--   Toy, Examples   a small engine, and the theorems applied to it
--
-- The model. A function of the source is a definition of the same name; `imbh_log_query_set_limit` is
-- `LogQuery.set_limit` in Query/LogQuery.antt, and so for the other builders. A body is an action
-- `Store -> Outcome x Store`, in the order of the source: `?` is bind, an early return is `reject_if`,
-- a dereference of a pointer that names no object of its type is `undefined`. The store maps an address
-- to a cell that holds one Rust object; an allocation takes the next address, and addresses are not
-- used again. An out-parameter is a cell of its own type, empty until it is written. The engine's state
-- is opaque; a call of the engine may change it, fail, or panic, in any way. A call of an entry point is
-- a function of the world: the store, the calling thread and each thread's message.
--
-- Bounds. `usize` and `u64` have 64 bits; a `u64` sum or offset wraps as in a release build. Lengths
-- and codes are natural numbers, `i64` values integers; f64 values are opaque. Strings are UTF-8 bytes,
-- a C string the bytes before its NUL. The client of the paging theorem has fuel for one page more than
-- there are rows, which is enough since every page but the last has a row.
--
-- Not modelled: the engine and its crates (parameters, with what a theorem needs of them as
-- hypotheses), the layout of structs in memory, concurrent calls, allocation failure, the generated
-- header, the C++ wrapper, the build script, the tests and the packaging.
pub mod Common
pub mod Engine
pub mod Types
pub mod Memory
pub mod Error
pub mod Pointers
pub mod Arrow
pub mod Discovery
pub mod Options
pub mod Lifecycle
pub mod Ingest
pub mod Tables
pub mod Ops
pub mod Sql
pub mod Query
pub mod Lgtm
pub mod Api
pub mod Toy
pub mod Examples
