-- ===== src/Lib.antt =====
-- rLLM: an inference server for language models. This library models the parts that decide which
-- memory and which requests a step of the engine uses, and proves what they promise to each other.
--
-- The parts and their files. Paths are from the root of the repository.
--
-- * crates/rllm-cache/src/block_pool.rs. Cache/FreeQueue.antt has the doubly linked free queue
--   whose links live in the blocks (`FreeBlockQueue`: push_front, push_back, pop_front, remove),
--   and Cache/FreeQueue/ the list that the links stand for. Cache/BlockPool.antt has `BlockPool`:
--   new, allocate (pop_uncached, evict_lru), free, incref, is_shared, copy_on_write, touch,
--   get_cached_block, cache_block, reset_prefix_cache, usage. Cache/BlockPool/ has its invariant
--   (`IsPool`: the queue's links and the books on reference counts, ids and hashes) and a file
--   for each group of operations. The vector of blocks is a function from an index to a block.
-- * crates/rllm-cache/src/manager.rs, in Cache/Manager.antt: `KvCacheManager`, which keeps each
--   request's table of blocks over the pool: get_computed_blocks, allocate_slots, free,
--   cache_blocks, fork_blocks, get_block_ids, get_computed_tokens, usage, reset_prefix_cache.
-- * crates/rllm-cache/src/prefix.rs, in Cache/Prefix.antt: the chained hashes of full blocks. The
--   digests SHA-256 and XXH3 are parameters (`Digests`); the bytes that they get are written out.
-- * crates/rllm-cache/src/offload.rs, in Cache/Offload.antt: blocks in pinned host memory.
-- * crates/rllm-cache/src/spec.rs and crates/rllm-core/src/dtype.rs, in Cache/Spec.antt: how many
--   blocks there is room for.
-- * crates/rllm-core/src/request.rs, in Core/Status.antt and Core/Params.antt: the life cycle of
--   a request, and the validation of its parameters.
-- * crates/rllm-scheduler/src/policy.rs, in Scheduler/Policy.antt: the queue of waiting requests.
-- * crates/rllm-scheduler/src/scheduler.rs and output.rs. Scheduler/State.antt has the
--   scheduler's record and its output; Scheduler/Run.antt has schedule_running and
--   preempt_request; Scheduler/Admit.antt has select_waiting_request and schedule_waiting;
--   Scheduler/Step.antt has step, process_finished, add_request, abort_request and the small
--   operations. Their children have the proofs. The scheduler calls the manager through the
--   interface `ManagerOps`; Scheduler/Contract.antt says what it relies on,
--   Scheduler/Invariant.antt what holds of it between two operations (`Inv`), and
--   Scheduler/KvManager.antt with its children fills the interface with the manager's model.
-- * crates/rllm-engine/src/batch_queue.rs, in Engine/BatchQueue.antt: the queue ahead of the
--   engine.
-- * crates/rllm-tokenizer/src/detokenizer.rs, in Tokenizer/Utf8.antt: stop tokens, and characters
--   whose bytes are split between tokens. `String::from_utf8_lossy` is a parameter.
-- * crates/rllm-sampling/src/speculative.rs, in Sampling/Speculative.antt: drafts from n-grams.
-- * crates/rllm-kernels/src/backend/metadata.rs and attention.rs, in Kernels/Metadata.antt and
--   Kernels/Batch.antt: the batches and their page lists.
--
-- The scheduler calls the manager, the manager calls the pool, and the pool the free queue; the
-- manager hashes prompts to look them up in the pool. Shared.antt and its children have the
-- names, lists and maps that all parts use; Tests.antt has the theorems at concrete inputs.
--
-- Conventions. Numbers are natural numbers. A decrement or an index that panics answers `none`,
-- as does an overflow of a reference count; the counters of the batch queue, the number of
-- generated tokens, the page counter and products of sizes wrap, as in a release build. The two
-- searches through the free queue run on fuel, one more than there are blocks, which is enough
-- since the queue holds each block at most once. The loop over the waiting requests runs on one
-- more than there are of them, which is enough since each round takes one out of the queue. The
-- scheduler's counts of tokens wrap at 64 bits. A reference count has a limit, so that a manager
-- in order has a number of further references that it has room for; a look-up of a prompt uses up
-- at most its length. A hash map is an association list, and strings are lists of bytes.
--
-- Not modelled: the engine; the models, kernels, sampling and quantization, which compute with
-- floating-point numbers; the servers, executors, workers and metrics, which are input and
-- output; and what the code takes from third-party crates.
pub mod Shared
pub mod Cache
pub mod Core
pub mod Scheduler
pub mod Engine
pub mod Tokenizer
pub mod Sampling
pub mod Kernels
pub mod Tests
