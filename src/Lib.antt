-- ===== src/Lib.antt =====
-- repics: Python bindings of EPICS Channel Access (CA) and pvAccess (PVA), in Rust. The library models
-- the Rust core, the code between the protocol crates (`epics_ca_rs`, `epics_pva_rs`, `epics_base_rs`)
-- and Python: who holds which state under which lock, what is queued, and what is told to whom.
--
-- The parts, and the modules that model them:
--   src/pva/hub.rs, the PVA monitors: PvaHub. `Monitor` is one monitor's queue (`Queue`, `push`,
--     `push_value`, `take`); `Hub` is `PvaMonitorHub`, whose functions are what a wire callback, a
--     `subscribe`, a `close_subscription` or a `recv_batch` does between two locks; `Hub.Steps` lets
--     them interleave. A monitor tells the hub its id, and a drain takes the queue behind each id.
--   src/hub.rs, the CA monitors: MonitorHub. `Subscription` is the task `run_subscription`, as a state
--     machine over the arms of its two `select!` loops; `Hub` is `MonitorHub`, which sends control
--     messages to the tasks and reads batches off their shared queue.
--   src/ca.rs: Ca. `Counts` is the element count that a read or a monitor asks for, `Drain` the handle
--     that Python pulls from, `Batches` the stash and the batches of `CaSubscription`, `Access` the gate
--     before a read or a write (`ensure_connected`, `do_get`, `do_put`).
--   src/ca_server.rs, the CA server: CaServer. `Operation` is `CaServerOperation`, `WorkQueue` the queue
--     to the Python handler, `Entry` is `CaPvEntry`, `Entry.Adoption` the start of `CaServer` and
--     `CaProvider::remove`, `Provider` the table of `CaProvider`, `Port` is `resolve_port`.
--   src/pva/server.rs, the PVA server: PvaServer. `Operation` is `ServerOperation`, `Entry` is `PvEntry`
--     with its subscribers, `Source` is `PySource` with `run_op` and the table of `PvaProvider`,
--     `Requests` the calls of it that make an operation without a context or a monitor, `Config` is
--     `configure`. Its work queue is that of the CA server, which has the same code.
--   src/pva/client.rs: PvaClient, `queue_limit` and `PutOp`. `Config` is `configure`, `Many` is `get`
--     and `get_many`, `Commits` is `put_commit_many` up to the run of its futures.
--   src/runtime.rs: Runtime, a Rust future handed to asyncio (`into_py_future`, `hand_to_asyncio`,
--     `CancelRelay`, `Completor`) and `IN_FLIGHT`; `Many` is `bounded`, `join_all`, `results_to_py`.
--   src/pva/value.rs: PvaType is `Type` and the type language (`desc_to_py`, `desc_from_py`); PvaFields
--     the fields of a value with their bits (`children`, `collect_marked`, `changedSet`); PvaScalar
--     `py_to_scalar`; PvaAssign `assign` with `build`, `build_union`, `build_variant` and `infer_desc`;
--     PvaView the views of a root (`item`, `__setitem__`, `select`, `marked_leaves`); PvaToPy
--     `field_to_py`; PvaValue the marks, `Root::mark_span` and `Value::changed`, for a descriptor that
--     is a parameter.
--   Prelude holds what the modules share, Text the text functions of the Rust standard library that
--     are used, and Epics the parameters: what the protocol crates promise.
--
-- How it is modelled. A method that runs under one lock is a function from the state to the state;
-- where a method lets a lock go, it is one function for each part. What a caller hands on or is told
-- is part of the result. `Result` and `Option` are the source's. Ids are `u32` and wrap
-- (`% 2 ^ 32`); the interleavings of `Hub.Steps` stop before an id is used twice. Loops recurse on the
-- list that they walk; `recv_batch` recurses on the room left below its cap, which is the number of
-- turns that the loop can take at most. The decimal rendering recurses on one more than the number,
-- and each division by ten uses one. `assign` recurses on fuel; `fuel_for` says how much is enough, and
-- for which objects. A type, a field and a Python object are data with the constructors that the code
-- matches or makes. The root whose lock a thread holds is a number, and a `Value` knows the number of
-- its root, so that a wait for a lock that is held is an outcome of its own. A hash map is an association list whose order is never read. A
-- task or thread that waits is cut in two at the wait, and the environment decides when it goes on. The
-- methods of `CaPvEntry`, which let their lock go before they set a cell, are taken one after the other.
--
-- Parameters. The descriptors, values and addresses of the PVA library are opaque types; `BitSet` has
-- the laws of a set of numbers; the library's `SharedPV`, its rings and its table of names are a record
-- of operations with the laws that the code relies on; so is the database that a CA server fills. Each
-- record has an instance on numbers and lists, which the examples use. Of `FieldDesc` the count of its
-- bits and the bit of a path are parameters, of the values the default of a type, the parser of a
-- scalar and numpy's arrays; floats are their bit patterns, and their conversions are parameters.
-- `str` of a list or a tuple that holds a `Value` is a parameter, and does not take its lock here.
--
-- Not modelled: the Python packages under python/ and the module registration of src/lib.rs; the
-- conversions from EPICS values to Python (src/value.rs, and of src/pva/value.rs `todict`, `tolist`,
-- the text forms and the numpy arrays); of the client contexts (src/pva/client.rs, src/ca.rs) what is
-- not named above; the start of the tokio runtime; the error classes of src/error.rs and
-- src/pva/error.rs; of the servers, sockets, and the start and stop of the accept loops; the decoding of monitor frames, which is the library's.
pub mod Prelude
pub mod Text
pub mod Epics
pub mod Ca
pub mod CaServer
pub mod MonitorHub
pub mod PvaHub
pub mod PvaServer
pub mod PvaClient
pub mod PvaType
pub mod PvaScalar
pub mod PvaFields
pub mod PvaAssign
pub mod Runtime
pub mod PvaToPy
pub mod PvaView
pub mod PvaValue
