-- ===== src/Lib.antt =====
-- CloudDesk-OS: a model of the parts of the server that decide, and what is proved of it.
--
-- The program is a set of Rust crates below the service `clouddeskd`. Modelled are five of them,
-- a part of a sixth, the loop of the service that drives one, and two parts of the service itself:
--
-- - Transfers: the durable transfer queue, crates/transfers/src/lib.rs. `Endpoint` has the
--   endpoints and their checks (`select_strategy`, `validate_endpoint`, and
--   `validate_scp_remote_path` of crates/remote/src/scp.rs), `Names` the text columns, `Rows` a row
--   of `transfer_jobs` with its encoding and decoding, `Queue` every method of `TransferQueue` as a
--   function on the rows, `Worker` the loop of services/clouddeskd/src/worker.rs around the queue.
--   `History` runs any sequence of calls. The other files prove: `Find` and `Moves` hold the lemmas.
-- - Audit: the hash-chained log, crates/audit/src/lib.rs. `Event` has the values, their sorting
--   (`sort_json`) and the hashed record, `Chain` has `append`, `append_in_transaction` and
--   `verify_chain`.
-- - Auth: crates/auth/src/lib.rs. `Model` has the tables, `Throttle` the buckets that slow log-ins
--   down, `Factor` the time-based and recovery codes, `Capability` roles and capabilities, `Session`
--   the calls on sessions, `Login` the log-in. `History` runs any sequence of calls on sessions. The
--   events that it logs are those of `Audit.Event`.
-- - Orchestrator: crates/orchestrator. `Model`, `Port` and `Store` are model.rs, port.rs and
--   store.rs. manager.rs locks one instance at a time, and releases the lock in the middle of a
--   start and of a stop; `Instance`, `Start` and `Stop` model what one instance goes through,
--   by the sections under its lock, and what all instances share (store, ports, kills) as the
--   `Host`. What a section leaves to do once it has dropped the lock (a port that goes back, writes
--   to the store, the removal of the state directory) is a list of `Effect`s; a start or a stop
--   alone performs them at once (`settle`), while `Interleave` runs the sections of one instance,
--   and the effects of each task in their order, in any order. `Manager`, `Clients` and
--   `Sweep` are the operations of `RuntimeManager` on all instances, one after the other.
-- - Vfs: the local file provider, crates/vfs/src. `Paths` has the paths of lib.rs and
--   `safe_entry_path` of archive.rs, `Program` the calls on the `Dir` of cap_std, on the codecs of
--   archives and on getfacl and setfacl, and programs of such calls. `Provider` and `Search` are the
--   operations of `LocalProvider`, `Archive` and `Create` are archive.rs, `Acl` is acl.rs, and
--   `Local` is `execute_local`, which the service calls. `run` runs a program on any system that
--   answers the calls, `spent` counts the bytes that it writes.
-- - Egress: the proxy of the browser runtime, services/clouddeskd/src/browser_egress_proxy.rs.
--   `Address` has the policy, `Proxy` the handling of a connection: from what the client sends, read
--   by read, to the list of what the proxy does.
-- - Media: `JobLimiter` of crates/media/src/exec.rs, as a relation of steps between which other
--   tasks run (`Limiter`); `World` is the limiter with the users of the tasks and permits there are.
-- - Wopi: the locks of the WOPI host, services/clouddeskd/src/wopi.rs (`Locks`), and the requests on
--   them, `file_operation` of services/clouddeskd/src/lib.rs (`Operation`). `Refines` has the
--   abstract state that the rows implement. Requests come one after the other: the code looks a lock
--   up and writes it in two statements without a transaction, and what two requests that overlap
--   may do is in `Race`.
--
-- `Prelude` holds what these share: tests on numbers, lists, `Result`, and a SQL table as the list
-- of its rows with the statements that the program uses (`Prelude.Table`), and texts as lists of
-- bytes or characters (`Prelude.Texts`).
--
-- State is passed explicitly: an operation takes the rows, the log, the database or the instance
-- with its host, and returns them with its answer. SQL statements do not fail in Transfers,
-- Auth and Wopi, apart from a taken primary key; in Audit every statement of a try, its begin and its
-- commit may be done, find the database busy or fail, and the working copy of a transaction that is
-- not committed is dropped, as SQLite does; in the orchestrator the writes of a start, a stop and a supervisor may
-- fail. The readings of the clock within one call of Auth are taken as one.
-- Readings of the clock, random identifiers and tokens, and what the
-- system, an adapter or a process answers are arguments. So are serde_json (the
-- record `Serde` of Transfers, for endpoints, whose two directions may fail; with SHA-256 the record
-- `Format` of Audit, where each try says whether the texts are written) and the texts and cryptography of Auth (the record `Crypto`); what a theorem
-- asks of them stands among its hypotheses. Identifiers of jobs are numbers, since the random texts
-- have one width; times are numbers of seconds, in the orchestrator of milliseconds. Sums of times
-- stay far below 2^63, so that they do not wrap; the back-offs, the sizes of transfers and the
-- lengths of texts have the bounds of the code.
--
-- The calls of Vfs are answered by a system, a function on any state of the disk, so the theorems
-- hold whatever it answers, but for what they ask of it. The time of a move to the trash and lower
-- case are arguments (the record `Host`). In Egress, the resolver, the network, and the decoding
-- and encoding of UTF-8 are the record `Net`; the two directions of a tunnel, once it is open, are
-- one event.
--
-- Loops are structural but for five, which have fuel: 32 rounds of `allocate`, 31 tries of
-- `append`, as in the code, the polls of a start, as many as fit before its deadline at one per
-- 150 milliseconds, and two more, the directories that a search visits, and the depth of the tree
-- that `create_archive` walks. The last two have no bound in the code; out of fuel the model answers
-- an error of its own, `unfinished`. Enough are as many as the directories that the search can
-- reach, and one more than the depth of the deepest source.
--
-- Not modelled are the file and network work of a transfer (it is an argument of the worker), the
-- processes, containers, cgroups and proxies of the runtimes (the adapters answer for them), the
-- set-up and administration part of auth, the tokens and files of the WOPI host, and the other
-- crates and the HTTP handlers, which are mostly I/O: vault, secrets, the rest of media, library, remote,
-- privilege, linux, config, db.
pub mod Prelude
pub mod Transfers
pub mod Audit
pub mod Auth
pub mod Orchestrator
pub mod Wopi
pub mod Egress
pub mod Media
pub mod Vfs
