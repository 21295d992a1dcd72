-- ===== src/Lib.antt =====
-- A model of the serving core of full-inference-engine, a single-GPU serving engine for language
-- models in Python: who owns which block of the key-value cache, and how a request lives.
--
-- The parts. A pool of cache blocks is counted by `BlockAllocator`. `KVBlockManager` stands on it and
-- keeps a table of blocks for each request. `ContiguousKVAllocator` is the older, independent allocator
-- of one range of tokens per request. A `GenerationRequest` is what the scheduler moves from state to
-- state; it refers to its table in the manager by the table's key. `FCFSScheduler` admits requests while
-- the manager has blocks, and yields the newest one's when it runs out. `PrefixCache` owns blocks of past
-- prompts in the same allocator, gives them to new requests and evicts them for the scheduler, which knows
-- it only by the interface of Cache/PrefixInterface. Beside
-- these stand parts that the engine calls: the n-gram proposer and the rule that accepts its proposals, the
-- registry that chooses an attention backend, and the service, whose worker
-- takes submissions from an inbox to the engine and completes the handles by which callers wait.
--
-- Files, and the code they are about:
--   Base                 what the files share: lists, dicts, tests, methods that raise
--   Cache/Blocks         engine/cache/allocator.py, BlockAllocator
--   Cache/Paging         engine/cache/paging.py, KVBlockAllocation, KVBlockManager, gather_paged_tokens
--   Cache/PrefixInterface, Cache/Prefix  engine/cache/prefix.py, PrefixMatch, PrefixCache
--   Cache/Contiguous     engine/cache/allocator.py, ContiguousAllocation, ContiguousKVAllocator
--   Cache/Geometry       engine/cache/kv_cache.py, KVCacheGeometry
--   Runtime/Sampling     engine/runtime/sampling.py, SamplingParams
--   Runtime/States       engine/runtime/request.py, RequestState
--   Runtime/Requests     engine/runtime/request.py, GenerationRequest
--   Scheduler            engine/scheduler/scheduler.py, FCFSScheduler; Scheduler/Admission is its
--                        admit_available, Scheduler/Planning its plan_prefill
--   Speculative/Acceptance, Speculative/Ngram  engine/speculative/acceptance.py, ngram.py, proposer.py
--   Server/Handles       engine/server/continuous.py, RequestHandle
--   Server/Service       engine/server/continuous.py, ContinuousBatchingService
--   Backends/Registry    engine/backends/registry.py
--   Kernels/DecodeConfig engine/kernels/paged_decode_config.py
-- The children of a module hold its lemmas and theorems, and `Examples` its tests.
--
-- The correspondence. A class is a record of its fields, and a method a function of the same name, which
-- takes the state and returns the result with the new state, or the error with the state at the moment
-- of the `raise`, since Python keeps what a method has changed before it raises. A constructor that
-- raises gives `none`. A dict is a list of keys and values in insertion order. Counts are naturals, as
-- the code's guards make them; the index of `replace_shared`, which may be negative, is an integer, and
-- so are the unchecked numbers of `SamplingParams`. Floats are exact binary fractions, and a latency is
-- given by its nanoseconds. `perf_counter_ns()` is an argument of the methods that read it; it is
-- monotonic, so that no difference of times is negative. Loops are recursion over the list that the
-- code loops over, so that no bound on steps is needed. The loops that evict have a bound on their rounds,
-- the number of items of the cache; every round takes one item, so that this is enough.
--
-- The threads of the service act in any order, by steps: a caller's check and put of a submission, a pass of
-- the worker, the start and the end of a drain, and the end of a stop. What the engine does is an argument
-- there, and may raise anywhere.
--
-- Not modelled: tensors, kernels, CUDA graphs, the network, the HTTP server, metrics and benchmarks; and
-- so far the pure parts of the batching engine.
pub mod Base
pub mod Backends
pub mod Cache
pub mod Kernels
pub mod Runtime
pub mod Scheduler
pub mod Server
pub mod Speculative
