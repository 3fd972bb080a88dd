-- ===== src/Client.antt =====
-- libicbinn/src, the client library. The modules below hold the stubs it is built on, its
-- functions, and the proofs about them.
pub mod Connection
pub mod Closing
pub mod Allocating
pub mod Stubs
pub mod Calls
pub mod Transfer
pub mod Loop
pub mod Bounds
pub mod Counts
pub mod Fetch
