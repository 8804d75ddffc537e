-- ===== src/Lib.antt =====
-- Verification library of knast, a container runtime for FreeBSD.
--
-- The program. An image is fetched from a registry (registratur, baustelle) and converted into a
-- bundle; the operations on a bundle (libknast) create a jail, mount its file systems, set up
-- its network (netzwerk), and run, signal, await and delete processes. All records, the pool of
-- addresses among them, are kept by a key-value store (storage) with two engines. Command lines
-- (runc) and a containerd shim call the operations.
--
-- The files.
--   Base: texts, paths (str::split, std::path), 32-bit conversions, and Exec, the fallible actions
--     on a state in which every stateful part is written: an action that fails keeps what it
--     wrote before. A Triple says what an action does from the states of a precondition, in its
--     value and in its error.
--   Storage: storage/src/lib.rs. StorageEngine is the trait, Storage/Contract what it promises, a
--     map from a collection and a key to bytes; Storage/Typed are the typed methods over any
--     engine with the contract; Storage/Sqlite (sqlite_engine.rs and its statements) and
--     Storage/Sled (sled_engine.rs) are the engines.
--   Host: what the program calls and does not implement: system calls, the crate jail, reading a
--     configuration. Each call is an action that may fail, with no law unless a theorem names it.
--   Libknast/Filesystem: libknast/src/filesystem.rs and filesystem/*.rs.
--   Libknast/World, Libknast/Processes, Libknast/Bundle, Libknast/Operations:
--     libknast/src/operations.rs, the database and the system as one state, the records of
--     processes, what is read in a configuration, and OciOperations.
--   Libknast/AddressPool, Libknast/Network: libknast/src/operations/network.rs and utils.rs, the
--     addresses as data, and the calls that share them out and set interfaces up.
--   Netzwerk/Range, Netzwerk/Interface, Netzwerk/Pf: netzwerk/src/range.rs, interface.rs with
--     interface/operations.rs, and pf.rs, with the requests of pf in Netzwerk/PfRequests;
--     Netzwerk/Route: route.rs and route/bindings.rs, with its message in Netzwerk/RouteMessages.
--   Baustelle/User, Baustelle/RuntimeConfig: baustelle/src/runtime_config/user.rs with
--     user/unix_user.rs, and runtime_config.rs.
--   Registratur/Domain: registratur/src/v2/domain/*.rs, the documents of an image.
--     Registratur/Client: client.rs, reqwest_ext.rs and the pulls of the documents;
--     Registratur/WwwAuthenticate: client/www_authenticate.rs. Registratur/Http is what they call.
--   Baustelle/Fetcher: baustelle/src/fetcher.rs and storage.rs. Fetcher/Cache is the cache as a map
--     with its invariant, Fetcher/Steps and Fetcher/Runs what the downloads do to it, Fetcher/Images
--     what `fetch` promises, and Fetcher/Ends why the downloads come to an end.
--   Baustelle/Archive: baustelle/src/archive.rs and archive/*.rs; Baustelle/Unpacker: unpacker.rs.
--   Baustelle/Containerfile: baustelle/src/containerfile.rs and lib.rs, which put these together.
--   ContainerdShim/Extensions, ContainerdShim/TaskService: containerd-shim/src/oci_extensions.rs, and
--     task_service.rs with filesystem.rs. ContainerdShim/Host is what they call.
--   Tests: the theorems at concrete inputs.
--
-- Bounds. The loops of network.rs that try a swap again have fuel, and the error `exhausted`
-- stands for the end of it; the statements on them hold for every fuel, and
-- Libknast/Network/Pool/Fuel says when two rounds are enough: with an engine that answers
-- (Storage/Reliable). The downloads of `fetch` go on side by side: a schedule says which of them
-- goes on next, the statements hold for every schedule, and Baustelle/Fetcher/Ends says which
-- schedules are long enough. All other recursion is structural. Numbers are natural numbers; an
-- i32 is an integer, and a u32 becomes one by its bit pattern. A heap is the list of its pops, and
-- a map an association list. Every call of rusqlite may fail: how the calls end that are still to
-- come is a list, and behind it they succeed.
--
-- Parameters. bincode is a Codec that returns what it was given; sled, ipnetwork and the combinators
-- of nom (Base/Nom) have their documented laws; pf has those of its requests where a theorem needs
-- them; devfs, HTTP, hashes, JSON, libarchive, pseudo terminals and the messages of
-- containerd have none, nor have the parser of container files, uuids and std::fs. What libarchive
-- reads in a content is a list of headers. Threads are not modelled, but for the downloads: other
-- writers of the store show in a swap that fails.
--
-- Not modelled: the process of the containerd shim, the command lines, the parser of container
-- files, several FROM side by side, layouts of C structures, logging.
mod Base
pub mod Storage
pub mod Libknast
pub mod Registratur
pub mod Baustelle
pub mod Host
pub mod Netzwerk
pub mod ContainerdShim
mod Tests
