-- ===== src/Lib.antt =====
-- opal: a Bitcask key-value store behind the Redis protocol.
--
-- Parts. A client turns a command into a frame and writes it to a connection (net/command.rs,
-- net/connection.rs); the server reads a frame, turns it into a command and applies it to a storage
-- engine (net/server.rs). The engine keeps a directory of data files, appends every put and every
-- delete to the active one, and finds values by a key directory in memory (storage/bitcask.rs and the
-- files below it).
--
-- Files.
--   Env: what the network code takes from the crate `bytes` (a parameter with the documented laws) and
--     whether the build checks overflow. `documented` is the instance that the laws determine.
--   Net/Frame: net/frame.rs. Data is `Frame` and its error, Utf8 and I64 the tests and the arithmetic of
--     the standard library, Reader the functions from `get_byte` to `get_integer`, Parse is
--     `Frame::check` and `Frame::parse`. A reader takes a cursor and returns a value and a cursor, an
--     error, a panic, or `no_fuel`. Progress, Fuel and Total are about termination, Agree compares
--     the checker and the parser, Extend and Stable add bytes behind, Deeper adds fuel,
--     Reads and Numbers are about bytes that were printed.
--   Net/Connection: net/connection.rs. Write is `write_frame`, as the bytes that it sends; Read is
--     `parse_frame` and `read_frame`, on a buffer and the list of what the reads of the socket give.
--     Whole is about frames whose bytes are all there, Pieces about those that come in parts.
--   Net/Command: net/command.rs and net/command/. Trip puts it together with the connection.
--   Net/Server: `Handler::run` of net/server.rs and the `apply` methods of the commands, over the record
--     `KeyValueStorage` (storage.rs) of a storage's operations. `run` gives the bytes sent, the storage's
--     state and how the handler ends; its number of rounds says when the shutdown signal comes.
--   Net/Listener: `Listener::accept` and `listen`, `Server::run`, `Handler::drop` (net/server.rs),
--     `Shutdown` (shutdown.rs) and the limits of net/config.rs, as a step relation; a whole `accept` is one
--     step. Backoff is about its pauses, Permits about the states that are reached, Spawns
--     about the next connection, Heard and Drain about a shutdown.
--   Net/Client: net/client.rs, the methods as the bytes sent and what is made of the next frame.
--   Storage/Bitcask: the engine. Config is storage/bitcask/config.rs, with `f64` as a parameter. Crates
--     is the parameter for bincode, the skip map and the LRU cache with their laws; Files the directory,
--     Stats and Log are storage/bitcask/log.rs and bufio.rs; Store is the state of a handle and its
--     operations (writer.rs, reader.rs, context.rs, bitcask.rs). Below it, Located
--     has the invariant, Growth, Append, Switch and Entry the steps of a write, Mapping those of a read. Session runs sequences of calls; Toy is an instance of the crates for the tests.
--   Storage/Bitcask/Recovery: `Bitcask::open` without its thread, `rebuild_storage` and the functions that
--     fill the maps (bitcask.rs), `LogIterator` (log.rs), `sorted_fileids` (utils.rs), `Writer::drop`.
--     Replay says what entries in files mean, Fileids is about the order of the files, Rebuild about
--     recovery, Hints about a hint file; Logged, Kept and Calls keep the history of a running store,
--     Left, Reopen and Survive open its files again, First starts from an empty directory, Total is
--     about termination.
--   Storage/Bitcask/Merge: `Writer::merge` and what decides about it (writer.rs), `LogDir::copy` (log.rs),
--     `Handle::merge` and `Handle::sync` (bitcask.rs). A store with the cache of its writer is a
--     `Merging`; Writer has the loop and the steps behind it, Copy compares a copy with a read, Invariant,
--     Written and Loop are about the loop, Present about its statistics, Removed and Settle about what
--     follows, Triggers says when a merge is due and of which files, Keeps puts it together. The
--     arithmetic of `f64` is a parameter. Toy is an instance of the crates whose key directory is a list.
--   Storage/Bitcask/Tasks: `merge_on_interval` and `sync_on_interval` of bitcask.rs; Timers is about
--     the former.
--   Engine: `impl KeyValueStorage for Handle`, and the handler over it.
--
-- Choices. Bytes are natural numbers. `Frame::check` and `Frame::parse` recurse on fuel; `parse_frame`
-- gives two more than the bytes in the buffer, which is enough, since each level consumes a byte; the
-- loops of recovery get one more than the bytes of the file, since each entry takes a byte. The
-- arithmetic of `i64` either panics or wraps, as the build does; the engine's `u64` arithmetic wraps, as
-- in a release build. The operations of a handle run one after the other: writes hold the mutex, and a
-- read is one step between them. A write reaches its file at once: `append` flushes. A sync changes no
-- byte of a file as the others see it.
--
-- Not modelled: the thread that runs the background tasks and the random length of their pauses,
-- start-up, configuration files and logging, which call libraries. The copies that a merge makes reach
-- their files at once, so a crash in a merge is not modelled. I/O errors other than those of opening
-- and creating files do not occur in the engine's model.
pub mod Engine
pub mod Env
pub mod Net
pub mod Prelude
pub mod Storage
