-- ===== src/Lib.antt =====
-- torch_mojo_backend, a PyTorch device and compiler backend on MAX. Its distributed part is a c10d
-- backend whose collectives run on a comm stream through a native core (NCCL, RCCL or mojoccl), and
-- the flight recorder beside it, which writes every rank's record of its collectives when one of
-- them times out. Its compiler cuts a captured graph at the operations on streams and lowers each
-- region, collectives included, to a MAX graph. Its native libraries and the assembler that builds
-- kernels are chosen when the package is imported or the device registered.
--
-- The parts, and the files that model them:
--   * torch_mojo_backend/distributed/process_group.py, `MojoProcessGroup`: ProcessGroup. Types has
--     the state and the events that a method causes (native calls, copies and fences on streams),
--     newest first in `log`. Monad has methods that change the state and may raise, where what was
--     done before an exception stays done. Plumbing, Staging and Coalescing have the private
--     methods under their names without the underscore; `loud` is the wrapper `_loud`. Collectives,
--     AllToAll and Rooted have the collectives, and Operations any history of calls. The native
--     core's answers, the devices, the addresses of new memory and the answers about the machine
--     are the fields of `Env`, so that each theorem holds whatever they are. NCCL groups are counted for
--     each thread (`depth`), since a group is its thread's own.
--   * torch_mojo_backend/distributed/flight_recorder.py, `_StoreState`: DumpState. `Serving` has the
--     threads that claim generations and finish them as a step relation, `Phases` the abstract
--     view of them, with the time of the next retry.
--   * the same file, `_Poller`, `claim`, `finish` and `signal_dump`: Monitor. State objects have
--     identities (positions in `heap`), since a claim holds on to the object that it was made on.
--     What a store answers is an argument of each call.
--   * the same file, `Recorder`: Recorder (the ring of eager records) and Recorder.Entries (the
--     entries of a dump: completion times, `pg_status`, names of entries without a record).
--   * process_group.py, `_set_index`, `_pick`, `_comparable`, `_desync_lines`: Desync.
--   * process_group.py, `use_local_rank_gpu`: DevicePinning.
--   * process_group.py, `_LIVE_WATCHDOGS`, `_stop_watchdogs`, `shutdown` and the watchdogs' pipes:
--     Watchdog. Exit has the exit hook's thread against the threads that shut groups down, Pipes
--     the descriptors. Whether a `__del__` can run between the hook's test of `dead` and its call is a
--     parameter of the steps (`prepared`).
--   * process_group.py, `_desync_reporter` and `_parse_report`: Reporter (texts), with its loop in
--     Reporter.Loop. What reaches the store of the index writes that it asks for is in Reporter.Index.
--     `_fr_incident` is in Monitor.Incident, since it claims the monitor's states.
--   * torch_mojo_backend/distributed/store_worker.py: StoreWorker, for one caller at a time.
--   * torch_mojo_backend/torch_compile_backend/streams.py: Streams (`compile_stream_graph`, the cut
--     into regions), Streams.Contexts and Streams.Fences (the streams that a region enters and
--     waits for at run time).
--   * torch_mojo_backend/torch_compile_backend/collectives.py and compiler.py: CompiledGraph (the
--     collectives of a graph while its nodes are lowered in order), CompiledGraph.Waits
--     (`_wait_source`, `waited_inputs`), CompiledGraph.Outputs (`handle_output` and
--     `reconstruct_from_blueprint`), CompiledGraph.Inputs (`handle_placeholder`,
--     `_add_symint_carriers`, `_graph_input`, `_symbol_values`). In Inputs `input_plan` has one entry
--     for each graph input, and names of nodes are unique, so a name is the position of its input.
--   * torch_mojo_backend/aten_functions.py: Shapes, for the shapes and index constants that the
--     mappings compute while a graph is built.
--   * torch_mojo_backend/native/__init__.py: NativeBuild (`mojo_import_closure`) and
--     NativeBuild.Prebuilt (shipped libraries, the cache, `_load_or_compile`), with any number of
--     processes on one cache in NativeBuild.Processes.
--   * torch_mojo_backend/_ptxas.py: Ptxas, the choice of a PTX assembler. Inheritance has any
--     sequence of its calls in processes that inherit the environment.
--   * torch_mojo_backend/mojo_device/dlpack.py: Dlpack, the lifetime of an exported tensor.
--     `follows_protocol` is what Python and a DLPack consumer promise.
--   * Prelude has the shared names and lemmas, Examples the runs at concrete inputs.
--
-- The methods of a group take its dumps' tags from `Staging.begin`, which counts as
-- `Recorder.begin` does; the monitor's calls change its state objects by the operations of
-- DumpState.
--
-- Conventions: numbers are natural. Times of the dump states are quarter milliseconds, so that a
-- quarter of the dump wait is exact, and each call is given the clock that it reads. Nonces, keys,
-- names and stacks, which are only compared or passed on, are numbers; the lines of the watchdog are
-- texts, lists of ASCII codes. A process of NativeBuild takes thirteen steps. `advance` is on fuel: each
-- round takes a member out of `done`, so its length is enough. `rounds` has the source's bound of
-- eight. `_wait_source` takes as many turns as nodes stand before its node, and two more, and the
-- import closure at most one for each import line of each file, with one more for each file and the
-- entry; both theorems say so. Every other loop is over a list. Dimensions and offsets that may be
-- negative are ℤ. What a machine answers (files, `--help`, drivers, compilers, whether a stream can
-- be entered) is a field of a record, so that each theorem holds whatever it is.
--
-- Not modelled: the native watchdog, the debug pipe, the waits for other ranks' reports and dumps,
-- and file systems without locks; symbolized stacks, pickling and the wording of report lines;
-- `_StreamWork.wait` and
-- futures, which are calls of torch; what the library search finds. Of the compiler, symbolic
-- expressions, side streams and the rewriting of node metadata; the mappings of the operator
-- library that only call MAX operations; hashing and compiler commands; the searches of the machine
-- for assemblers; the kernels, which are Mojo and C++.
pub mod Prelude
pub mod DumpState
pub mod ProcessGroup
pub mod Recorder
pub mod Monitor
pub mod Desync
pub mod DevicePinning
pub mod StoreWorker
pub mod Ptxas
pub mod Streams
pub mod CompiledGraph
pub mod Shapes
pub mod NativeBuild
pub mod Dlpack
pub mod Watchdog
pub mod Reporter
pub mod Examples
