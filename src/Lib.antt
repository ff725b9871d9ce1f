-- ===== src/Lib.antt =====
-- CLSP, a C++ library for servers of the Language Server Protocol.
--
-- The parts of the program, and the modules that model them:
-- * include/clsp/ILanguageServer.hpp and src/ILanguageServer.cpp are `Server`. The class's members
--   are the record of `Server.State`; code that changes it and may throw is `Server.Exec`;
--   `Server.Send` has sendFrame and its callers, `Server.Handlers` the lambdas that the constructor
--   registers, `Server.Dispatch` handleRequest, handleNotification, handleResponse and
--   runRequestHandler, and `Server.Run` the tasks and the steps of all threads;
--   `Server.Typed` has the templates of the header. The other modules prove what these do:
--   `Server.Answers` counts requests and their responses over whole runs, `Server.Drain` lets the
--   workers finish, `Server.Robust` follows exceptions, `Server.Serial` looks at the pool that
--   handles the notifications about documents, and `Server.Documents` at what changes the store.
-- * src/JsonRpc.hpp and src/JsonRpc.cpp are `Errors` and `Rpc`.
-- * src/ThreadPool.hpp and src/ThreadPool.cpp are `ThreadPool`.
-- * src/DocumentStore.cpp and include/clsp/IDocumentStore.hpp are `Store`, and its positionToOffset
--   is `Text`, with include/clsp/PositionEncoding.hpp.
-- * include/clsp/protocol/ is `Protocol`, and `Tokens` has the SemanticTokensBuilder.
-- * src/Uri.cpp is `Uri`, and src/StdioTransport.cpp is `Transport`.
--
-- A frame that the transport reads is parsed by `Rpc`; the server looks at its state, answers or
-- runs what is inline, and submits the rest to one of two thread pools: a serial one for the
-- notifications about documents, which change the store, and one of several workers for all else.
-- Handlers end in frames that are sent, which the model keeps in `sent`.
--
-- nlohmann::json is a parameter: the record `Json.JsonLib` has the operations that the code calls,
-- `Json.JsonLaws` what its documentation says of them, and `Json.Tree` values that meet them.
-- So is std::filesystem::path, the record `Uri.PathLib`. `json::parse` may throw what the code does
-- not catch, a `what()` is any bytes, which `dump` may refuse, and user code may throw what is no
-- std::exception (`Errors.Exception`); a step that an exception leaves returns `err`, and no run goes
-- on from there.
-- A subclass's hooks, handlers and response callbacks are functions, which may throw; a request
-- handler is given what its polls of the cancellation token see. Methods that lock are single steps. Pointers into the store are the values
-- that they point to. Threads are interleaved as sequences of events.
--
-- Numbers: positions are uint32_t, offsets size_t and ids int, with their wrap-around written out.
-- Text is bytes; what JSON keys and URIs compare are strings. Fuel: the character loop of
-- positionToOffset is given the length of the text, since each round moves on by a byte or more; the
-- loop that reads headers is given any number of rounds, and reads a byte in each.
--
-- Not modelled: Overloaded.hpp, which is a template of lambdas; the end of `run`, where the pools are
-- shut down, but for the pools themselves; what a thread does between its critical sections.
pub mod Base
pub mod Errors
pub mod Json
pub mod Rpc
pub mod ThreadPool
pub mod Text
pub mod Store
pub mod Protocol
pub mod Server
pub mod Uri
pub mod Tokens
pub mod Transport
pub mod Examples
