-- ===== src/Lib.antt =====
-- Verification of the llama repository: the state machines that admit, schedule, cache and record
-- the work of a local inference runtime and of the agents that use it.
--
-- The parts, and how they interact. The inference runtime admits a request to a ledger of
-- reservations, picks the next one to serve by weighted fair queueing, serves it on a backend that a
-- registry loads and leases, and keeps prefixes and sessions of tokens in a cache that requests share.
-- The model worker follows each request through a table of lifecycles. The agent runtime stores what a
-- run did as a stream of events and rebuilds the state of the run from it.
--
-- Governance.Policy, .Admission, .Selector and .Snapshots: inference_runtime/governance.py, with
--   `SchedulingMetadata` of inference_runtime/contracts.py. A method of `ResourceAdmissionController`
--   or `HierarchicalFairSelector` is a function of the same name on a record of its fields (`select`
--   is `select_next`). Times are whole ticks; a fraction is compared by cross-multiplication.
-- Contracts: inference_runtime/contracts.py. A `__post_init__` or `validate_` function is a check that
--   raises the name of the field it refuses. A text's bytes are those of its UTF-8 encoding.
-- Scheduler: inference_runtime/continuous_scheduler.py, over Governance and Contracts. State has the
--   table of entries, Intake the calls of producers (`infer` is `infer` up to the wait and `collect`
--   after it), Opening, Batches and Decoding the handlers of the worker, each in the section before the
--   backend's call and the one after it, Ending and Completion the ends of a request, and Loop `_run` as
--   a machine whose phases are the points between its sections, the handler of exceptions included, so
--   that producers may call at every phase. The end of a request, with the backend's release, is within
--   one section, and within a section the clock is read once; the clock is taken to answer. Setup has the
--   constructor. The backend and the sink of events are a record of functions. Ready proves what a new
--   scheduler may count on, Budgets what a batch may hold, Ledger what the end of a request does to the
--   ledger, and Sound what stays true of the table at every phase.
-- Cache: inference_runtime/cache.py. A method of `SequenceStateCache` is a function from the cache
--   to the cache beside its result, since a method that raises may have dropped entries. The clock's
--   reading and the identifier of `uuid4` are arguments. Bytes are a list of numbers.
-- Backend: inference_runtime/registry.py. Methods that leave the lock in the middle are one function
--   for each section under the lock, on one entry of the table; Backend.Leases lets the sections of
--   any threads follow each other in any order, and counts the threads between two sections.
-- Worker: model_worker/request_registry.py. A record is reached by its id; the clock's reading is an
--   argument and may be missing, which is where the code raises.
-- Worker.Context: model_worker/context.py. What `decode` and `should_stop` answer to their calls is an
--   argument.
-- Worker.Frames: model_worker/ipc.py, the verifier of the frames of a request. `loads` of strict_json is
--   an argument. Worker.Frames.Protocol tells the order of frames without it.
-- Run: agent_runtime/ids.py, events.py, reducer.py, permissions.py, acceptance.py and flow.py.
--   `replay` is `Run.Reducer.replay`, one function for each branch of its chain on the event kind. The
--   names that `hasattr` finds on every object are an argument, as is `datetime.fromisoformat` of a gate.
-- Run.Store: agent_runtime/event_store.py, with the canonical JSON of events.py. A table of rows with its
--   unique indexes, and the rows that ROLLBACK puts back; `json`, SHA-256 and `json_extract` are a record
--   of functions. The abstract view is a log of the events of each run, as they are read.
-- Tests: runs of every part at concrete inputs. Prelude: names of the libraries, dictionaries as
--   lists of pairs in insertion order, calls that may raise, integers and texts.
--
-- Bounds and fuel. Two loops are on fuel. Each round of `_ensure_capacity_locked` removes an entry, and
-- its fuel is one more than the number of entries; each chunk of `prompt_chunks` takes a token, and its
-- fuel is their number. All else is structural recursion. Python integers do not overflow, and natural
-- numbers stand for them; where the code subtracts, it has tested before that the difference is not
-- negative, or the comparison is turned into a sum.
--
-- Not modelled: the checks of Python types at run time, which the types of the model replace; locks,
-- whose sections are atomic steps; hashes, files, the calls that open and close SQLite, HTTP, processes
-- and the native engine; the dispatcher and the agent service, which call what is modelled.
pub mod Prelude
pub mod Governance
pub mod Contracts
pub mod Cache
pub mod Scheduler
pub mod Run
pub mod Worker
pub mod Backend
pub mod Tests
