-- ===== src/Server.antt =====
-- include/clsp/ILanguageServer.hpp and src/ILanguageServer.cpp: the dispatcher. `State` holds the
-- data, `Send` what leaves the server, `Handlers` the handlers that the constructor registers,
-- `Dispatch` what the read thread does with a message, `Run` the tasks of the two pools and the
-- steps of all threads. The other children hold proofs.
pub mod Exec
pub mod State
pub mod Send
pub mod Handlers
pub mod Dispatch
pub mod Run
pub mod Replies
pub mod Gate
mod Spares
pub mod Kept
pub mod Sending
pub mod Pools
pub mod Steps
pub mod Pending
pub mod Cancel
pub mod Answers
pub mod Robust
pub mod Serial
pub mod Drain
pub mod Documents
pub mod Typed
