-- ===== src/Server.antt =====
-- libicbinn/server/server.c, the handlers of the server. The modules below hold the state and the
-- handlers, then the proofs about them.
pub mod State
pub mod Files
pub mod Names
pub mod Readdir
pub mod Dispatch
pub mod Answers
pub mod Still
pub mod Refusals
pub mod Outcomes
pub mod Overruns
pub mod Blocks
pub mod Buffers
pub mod Growth
pub mod Pages
pub mod Listing
pub mod Replies
pub mod Simulation
