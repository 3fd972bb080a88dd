-- ===== src/Wire.antt =====
-- Client library and server together. The RPC layer between them (libtirpc and the code that is
-- generated from icbinn_prot.x) is not part of the sources: it enters by the law `Carries`.
pub mod Errors
pub mod Link
pub mod Reading
pub mod Writing
pub mod RoundTrip
pub mod FileStore
pub mod Rounds
pub mod Listing
pub mod Again
