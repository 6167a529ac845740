-- ===== src/Lib.antt =====
-- century_ring: a model of the century-ring package, Python bindings of io_uring, and its laws.
--
-- The package has a Rust module (src/) and Python wrappers (pysrc/century_ring/). The Rust object
-- `TheIoRing` holds the crate's ring, a counter of user data, and the buffers, paths and addresses
-- that the kernel may still read or write (`owned_data`). The functions `_RUSTFFI_ioring_prep_*`
-- check their arguments, push one submission entry, and hand what it points to over to the ring
-- object; `get_completion_entries` turns completion entries into events and takes the owned data out
-- again. The Python class `IoUring` converts arguments, draws the user data and calls the Rust
-- functions; `make_io_ring` creates the ring and closes it at the end of a `with` block; `FdHandle`
-- closes a file descriptor at most once.
--
-- Which file models which part:
--   Platform      what is outside of the package: the crates io_uring, procfs, nix and pyo3, the
--                 kernel behind them, and close(2) and eventfd(2). It is a parameter everywhere, three
--                 records of functions. Platform/Laws states what the code relies on: a ring has
--                 entries that are outstanding from their push until their completion is read, which
--                 nothing else adds to; a queue that is not full takes an entry; the completion queue
--                 gives a bounded number of batches while nothing is submitted; pyo3 accepts exactly
--                 the integers that fit. Platform/Toy is a platform that runs, for which they hold.
--   Ring          src/ring.rs. Ring/State has the structs and the `add_owned_*` functions, Ring/Queue
--                 the methods that push, submit and wait, Ring/Reap `get_completion_entries`,
--                 Ring/Create `create_io_ring`. Proofs: Ring/Autosubmit, Ring/Reads,
--                 Ring/Completions, Ring/Returned, Ring/Termination, Ring/Closed, Ring/Counter,
--                 Ring/Accepted, Ring/Timeout.
--   Prep          src/files.rs, src/network.rs, src/shared.rs, src/flags.rs, one function for each.
--                 Proofs: Prep/Pushed, Prep/Bounds, Prep/SkipSuccess, Prep/FlagBits.
--                 Prep/Requests says what the entries hold, Prep/Outcome what such a function may do to
--                 the ring object, Prep/Outcome/Steps has one rule for each step that they are built
--                 from, and Prep/Outcome/Functions each function.
--   Helpers       pysrc/century_ring/helpers.py.
--   Handle        pysrc/century_ring/handle.py: `FdHandle`, in a store of objects. Proofs: Handle/Laws.
--                 Handle/Protocol has the protocols of that file, a record of operations and one of
--                 laws, with `FdHandle` as an implementation.
--   OpenFlags     pysrc/century_ring/enums.py. OpenFlags/Order, OpenFlags/Creation.
--   Client        pysrc/century_ring/ring.py. Client/State has `unwrap_file`, Client/Queue,
--                 Client/Files and Client/Network the methods of `IoUring`, Client/Session
--                 `make_io_ring`, whose block works on the ring's world and on a state of its own.
--                 Client/Methods has the calls of the preparing methods as data, Client/Requests what
--                 each asks of the kernel, Client/Outcome what it may do on every branch, with rules for
--                 its steps there, in Client/Unwrap and in Client/Outcome/Arguments, and
--                 Client/Outcome/Methods each method. Proofs: Client/Closing, Client/ClosedHandle.
--   Manager       pysrc/century_ring/aio/manager.py. Manager/Anyio has the streams of anyio, a parameter
--                 with laws, Manager/Dispatch the code of `UringIoManager` between two awaits,
--                 Manager/Steps its tasks in any order, Manager/Toy streams that run. Proofs:
--                 Manager/Routing, Manager/Steps, Manager/Rounds, Manager/Once, Manager/Completed,
--                 Manager/Unheard.
--   Sidecar       pysrc/century_ring/aio/sidecar.py and trio.py. Sidecar/Host has what is called of
--                 sniffio, trio and anyio, a parameter with laws, Sidecar/Start `start_uring_sidecar`
--                 with its nested blocks, Sidecar/Toy an event loop that runs. Proofs: Sidecar/Ending.
--   Memory        the ownership of what the kernel points into, across all the parts above: the
--                 invariant (Memory/Invariant), what a push and a submission leave of the queue
--                 (Memory/Queue), the calls that prepare nothing (Memory/Quiet, Memory/QuietCalls),
--                 reaping (Memory/Reap), the invariant between two calls (Memory/Settled), sequences
--                 of calls (Memory/Sequence), which calls make pointers into a stack frame
--                 (Memory/Frames), and from the creation of the ring on (Memory/Created).
--   Tickets       the user data as a user of the package sees them: the abstract protocol
--                 (Tickets/Protocol), the trace of a sequence of calls (Tickets/Trace), and that the
--                 one allows the other (Tickets/Reports, Tickets/Steps, Tickets/Refines).
--   Common        lists, dictionaries, integers, bits, calls that may raise, and the rules for pre- and
--                 postconditions.
--   Examples      the theorems at concrete inputs, on Platform/Toy.
--
-- State and errors. A call is a function from a state to a result and a state, so that what was
-- written before a raise stays written. The Rust methods work on a `Process`, the ring object and the
-- number of the next allocation; the Python methods on a `World`, a process and the store of handles.
-- A pointer in an entry is the number of the allocation it points to; that of a timeout leads into the
-- stack frame of `wait_with_timeout`, which is gone when the method has returned or raised. The Python
-- exceptions are the constructors of `Error`. User data is a u64 and wraps round.
--
-- Loops and fuel. The loop of `autosubmit` is run with two rounds, which are enough, as
-- Ring/Autosubmit and Ring/Termination show. The loop over the completion queue takes the number of
-- batches to come as its fuel, since the kernel decides how many there are; with more fuel than that
-- it never runs out.
--
-- Not modelled: a bytearray as the bytes of `prep_write` or `prep_send`, which pyo3 refuses; the
-- waiting for the eventfd of the manager, the registration of the Rust functions (src/lib.rs), the
-- texts of exceptions beyond their data, `__repr__` and `__str__`, threads and the GIL, and what the
-- kernel still does with entries after the ring has been closed.
pub mod Common
pub mod Platform
pub mod Ring
pub mod Prep
pub mod Helpers
pub mod Handle
pub mod OpenFlags
pub mod Client
pub mod Memory
pub mod Manager
pub mod Sidecar
pub mod Tickets
pub mod Examples
