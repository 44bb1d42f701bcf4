-- ===== src/Lib.antt =====
-- The server's sessions of russh-extra and parts of the client's, its SFTP subsystem (the packet
-- codec, the server runtime and the client runtime, and how the two runtimes agree over the wire), its
-- store of known host keys with its files, its shells, and its endpoints.
--
-- The program wraps the SSH library `russh`. Its SFTP subsystem runs on one channel of a session. A
-- client method encodes a request under a fresh id and waits; the server reassembles packets from the
-- channel's bytes, decodes a request, calls the application's handler and writes a response; the
-- client's read task reassembles and decodes the response and hands it to the request with its id.
-- On the server `russh` calls the methods of a handler, one for each connection: they authenticate a
-- user, count the open sessions, ask the application's callbacks and answer the requests of a channel,
-- start a task for each streaming exec, and hand the data of an SFTP channel to the SFTP runtime. A
-- client checks the server's key against the store, which it can save and load, or its policy; tries
-- its credentials in turn; and runs a command by reading the messages of a channel, or opens a shell
-- and reads and writes it by calls or through a task.
--
-- Paths are from the repository's root.
-- - Base: lists, machine words, text as bytes, maps as association lists. `String` is a list of bytes
--   that `is_utf8` accepts; `HashMap` is an association list without repeated keys.
-- - Core/Error: `Error`, `CategoryError` and the error kinds of crates/russh-extra-core/src/error.rs.
-- - Sftp/Wire, Sftp/Attrs, Sftp/PacketType, Sftp/Request, Sftp/RequestDecoder, Sftp/Status and
--   Sftp/Response: crates/russh-extra/src/sftp/packet.rs. A `pop_*` function takes the payload and the
--   cursor and returns the value and the new cursor; an encoder returns the bytes of the frame.
-- - Sftp/Metadata: `SftpMetadata` and `SftpDirEntry` of crates/russh-extra/src/sftp/types.rs.
-- - Sftp/Framing: the reassembly loop that `handle_data` in crates/russh-extra/src/sftp/server.rs and
--   `read_task` in client.rs both contain.
-- - Sftp/Handler and Sftp/Server: crates/russh-extra/src/sftp/server.rs. The trait
--   `SftpServerHandler` is a record of functions on the handler's state; `SftpServerRuntime` has the
--   fields of the source, and each method is a function from runtime to result and runtime.
-- - Sftp/Client: crates/russh-extra/src/sftp/client.rs. `ClientState` is what the tasks share; the
--   steps of the tasks are functions on it, and a run is a sequence of steps.
-- - Sftp/Transfer: `read_to_vec` and `write_all` of crates/russh-extra/src/sftp/mod.rs. The methods of
--   the client on a file are functions on the state of a connection.
-- - Sftp/Exchange: the abstract view. `Request` and `Answer` say what goes over the wire, and
--   `perform` says which call of the handler answers which request.
-- - KnownHosts/Entry and KnownHosts/Store: the store of crates/russh-extra/src/known_hosts.rs. The lock
--   is held for a whole operation, so `check`, `add_entry` and `merge` are functions on
--   `KnownHostsInner`.
-- - KnownHosts/Words, KnownHosts/Parse and KnownHosts/Files: its files. Words has the operations on
--   strings by which a file is cut, with the white space of Unicode in UTF-8; `load`, `load_files` and
--   `save` take the file system as a state.
-- - Core/Endpoint and Core/Config: `Endpoint` of crates/russh-extra-core/src/session.rs and
--   `ServerConfig` of config.rs.
-- - Server/Context, Server/Runtime, Server/Auth, Server/Channels, Server/Requests, Server/Forwarding and
--   Server/Exec: `HighLevelRusshHandler` of crates/russh-extra/src/server.rs. Its fields are the record
--   `ServerSession`, with the callbacks' shared state as one more; a method takes a session and the
--   state of `russh`'s session and gives a result or an error, and both states. Server/Event has the
--   calls of `russh` as data, and `handle` runs the method of a call.
-- - Server/Handler, Server/HostKey and Server/Builder: `ServerHandler`, host keys, and `ServerBuilder`
--   up to `build`.
-- - Server/Streaming: the task of a streaming exec. The handler's writes and the rounds of the task
--   take turns, in any order.
-- - Server/Lifecycle: the errors of sessions, the request to shut down, and `Drop`.
-- - Client/HostKeys, Client/Command and Client/Authentication: `check_server_key` with its policies,
--   `Session::command` and `authenticate_configured` of crates/russh-extra/src/client.rs. A channel and
--   a handle of `russh` are functions on a state; the messages of a channel are a list.
-- - Shell/Handle, Shell/AsyncIo and Shell/Open: crates/russh-extra/src/shell.rs. A handle reads from the
--   list of the messages that its channel gives. `Bridge` is the state that `ShellAsyncIo` and its task
--   share, and a run is a sequence of their moves in any order. Opening takes the channel as a function.
-- - Client/Trust, Client/Persisted, Client/Messages, Client/Output, Client/Outcome, Client/Verdict,
--   Server/Quiet, Server/Calm, Server/CalmExec, Server/Login, Server/Sessions, Server/Reachable,
--   Server/Unauthenticated, Server/Answers, Server/AnsweredExec, Server/Answered,
--   Server/Interleaving, Server/Isolation, Server/Traffic, Server/Routes, Core/Authority and the
--   other files of KnownHosts and Shell: proofs. Client/Outcome has the relation of attempts that
--   Client/Verdict is stated with, and Sftp/Server/Feeding the data of one channel for Server/Traffic.
-- - Sftp/Tests, Server/Tests, Client/Tests, KnownHosts/Tests, KnownHosts/FileTests and
--   Shell/Tests: runs at concrete inputs.
--
-- Bounds and fuel: a packet is at most 262144 bytes long, as in the source. Numbers are unbounded
-- naturals; the casts to u32 and the wrap of the request counter are written out, and the ranges of
-- the other types are hypotheses. The reassembly loop has one unit of fuel more than the buffer has
-- bytes; a round takes five bytes or more. `read_to_vec` is given fuel, and `write_all` has a unit for
-- each byte; a chunk takes one byte or more.
--
-- Parameters: the application's handler, the `Display` text of an error, the `Debug` text of a
-- response, `Session::data` of `russh`, the serialisation of a public key, and for files of known
-- hosts the file system, `HOME` and the `base64` crate. Of a server session: the
-- callbacks, on a state that they share, the session of `russh`, which takes a reply or fails, its
-- keys, certificates and errors, and the files of host keys. A streaming handler is opaque where it is
-- started, and a sequence of writes in its task. Of the client: `russh`'s channel and handle with the
-- timeouts around their calls, the mapping of a command's errors, the keyboard-interactive exchange, the
-- loading of an identity's key, and what a library knows of a public key.
--
-- In the client, taking the waiting requests and setting the abort reason is one step; the source
-- takes two locks in turn. Requests that fail together are told in the order of the list; the source
-- has no order there.
--
-- Not modelled: on the SFTP client `connect` around its packets, the queue of the write task,
-- `SftpFile` and `SftpDir` with their `Drop`, and the delegating methods of the facade; on the
-- server the listener and `run`, the configuration given to `russh`, the setters of a single
-- callback and the readers of PEM keys; connecting, the agent, and the channels that a server opens,
-- on the client; the modes of a PTY, the builder of a subsystem and the methods of a shell that only
-- call its channel; the tunnels, which are mostly calls of `russh` and `tokio`.
pub mod Base
pub mod Core
pub mod KnownHosts
pub mod Server
pub mod Shell
pub mod Client
pub mod Sftp
