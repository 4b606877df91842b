-- ===== src/Lib.antt =====
-- The verification library of the inference engine: models of the parts that decide what a request
-- gets, in the shape of the C++ code, and the theorems that make them correct.
--
-- The program. `runtime::Engine` takes requests from client threads (Submit, Cancel), and one loop
-- thread steps all of them: it asks `Scheduler::Schedule` which sequences to prefill, decode and
-- preempt, runs the model over paged caches, samples, asks each sequence's `StopChecker` whether its
-- generation ends and which text is out, and hands the tokens to the client by an `OutputChannel`. The
-- caches are `BlockTable`s over one `BlockPool`; tensors are laid out by `tensor::Shape`, and their
-- memory may come from a `CachingAllocator`.
--
-- Which file models what.
--   Prelude: shared names. Prelude/Tests has the Boolean tests, the conditional and signed arguments;
--     Prelude/Lists the lists over native numbers, Prelude/Maps association lists; Prelude/Results src/core/status.h.
--   Tensor/DType: src/tensor/dtype.h. Tensor/Shape: src/tensor/shape.h (ValidateDims, FromDims,
--     RowMajorStrides, IsContiguous), with proofs in Validation and Layout.
--   Memory/CachingAllocator: src/memory/caching_allocator.cpp (SizeClass, Allocate, Return,
--     release_cached); proofs in SizeClass and Accounting.
--   KvCache/BlockPool: src/kvcache/block_pool.cpp, every operation; KvCache/BlockPool/Invariant has the
--     invariant, History sequences of calls, CeilDiv the arithmetic of blocks. The reference counts are
--     a list, and the free list is a list whose head is the vector's back.
--   KvCache/BlockTable: src/kvcache/block_table.cpp, every operation; proofs in Ownership (what a table
--     owns of a pool), Grow (AppendTokens), Slots (slots and slot mappings), Shrink (Truncate, FreeAll).
--   KvCache/PagedCache: src/kvcache/paged_cache.cpp and paged_gather.cpp, append, view and truncate over
--     slabs that are functions from slots to rows; proofs in Contents (what is scattered is gathered),
--     Visibility (how many positions a layer shows), Appending and Isolation.
--   Scheduler: src/scheduler/scheduler.cpp, the three passes of Schedule as functions; proofs in
--     Eviction, Preempting, Admission and Plan. Signed is Schedule on signed counts, with the CHECKs on
--     their signs.
--   Generation/StopStrings: src/engine/stop.cpp, StopStringMatcher; proofs in Matching (the searches),
--     Overlap (what is held back), Feeding and Streaming. Generation/StopChecker: StopChecker; proofs in
--     Output and Watching (one step) and Stream (a generation).
--   Generation/Batch: src/engine/batch.cpp, Flatten; the proof is in Slices.
--   Tokenizer/Utf8: src/tokenizer/unicode.cpp, classify_utf8_prefix, append_utf8 and append_utf8_lossy;
--     proofs in Progress. Tokenizer/Detokenize: src/tokenizer/detokenize.cpp, push and finish, which fill
--     the detokenizer interface of the stop checker. Tokenizer/Bpe: src/tokenizer/bpe.cpp, bpe_split;
--     proofs in Merging. Tokenizer/Alphabet: the byte-level alphabet of src/tokenizer/bpe.cpp and
--     decode_utf8 of src/tokenizer/unicode.cpp; the round trip is in Spelling.
--   Runtime/Submission: src/runtime/engine.cpp, Create, Submit and Cancel; the proof, which joins it with
--     the scheduler, in Admissible. Runtime/Channel: src/runtime/channel.cpp, with all interleavings in
--     Delivery. Runtime/Sequence: the state machine of src/runtime/request.h and sequence.cpp.
--   Runtime/Requests: src/runtime/engine.cpp, what the loop thread does with its requests (DrainCommands,
--     RetireCancelled, PreemptSequence, PickPreemptionVictim, RetireTerminal, CloseCancelled). Its proofs:
--     Sound (what holds of each request), Slots, Bookkeeping, Retiring, Scanning and Cancelling (what
--     RetireCancelled does with each request), Ending and Victim.
--   Runtime/Passes: src/runtime/engine.cpp, one forward pass and its repair (BuildPassInputs,
--     RunBatchPass, DeliverSampled, ExecuteAndDeliver, RecoverForwardFailure); proofs in Delivery, Inputs,
--     Recovery and Batch.
--   Runtime/Loop: src/runtime/engine.cpp, ScheduleStep, Step and Shutdown; proofs in Planning, Admitting,
--     Turns, Stopping and Closing. The channels stand in a map beside the requests, as a client keeps its
--     own after the request has gone, and a channel is made when its submission is drained.
--   Parallel: src/parallel/parallel_for.cpp, the cut of a range into chunks; the proof is in Partition.
--   A module Tests has concrete runs and the theorems at concrete inputs.
--
-- Conventions. Numbers are natural; a signed argument is a `ℤ`, and a subtraction that the code guards
-- is the natural one. A failed CHECK ends the process: an operation that may fail one returns an
-- `Option` with `none` for the abort. A status is a `Result`. State is passed explicitly, and a mutex
-- makes an operation one step, so threads are sequences of steps. Text is a list of bytes.
--
-- Bounds and fuel. The eviction loop of Schedule has the number of running sequences for fuel: each
-- round removes one. std::bit_ceil has 64 doublings, which exceed every 64-bit size. The loop of
-- LongestPrefixOverlap counts its length down. The retries of RecoverForwardFailure have one round more
-- than there are running sequences, as each round preempts one. append_utf8_lossy has the number of bytes for fuel, and
-- a theorem says that it is enough. The detokenizer's loop has the number of pending
-- bytes for fuel too. The merge loop of bpe_split has the number of symbols for fuel, as each
-- round removes one, and the result is shown to be final. All other loops are recursion on a list. The block
-- and token counts, and the allocator's counters, are not wrapped: they count blocks and bytes that
-- exist.
--
-- Parameters. The detokenizer of a StopChecker is an interface (`Detokenizer`), and so is the
-- tokenizer of a detokenizer (`Tokenizer`); the answers of the
-- upstream allocator are arguments of a call, and so is the verdict of Sequence::Create in Submit. The
-- network, the sampler and the caches of the engine loop are a record (`Model`); its forward pass
-- may fail at will. The pool's snapshot is an argument of a step. The tensor
-- checks of an append to a paged cache are an argument of it, and so is the allocation of the tensors
-- of a view.
--
-- Not modelled: the waiting of Engine::Run between steps, the simple cache, pre-tokenization and the vocabulary, the sampler, and the
-- thread pool; the networks, kernels and quantization, which are floating point; file formats and
-- configuration; logging, metrics, benchmarks and the main program. Error messages and log lines are
-- left out everywhere.
mod Prelude
pub mod Tensor
pub mod Memory
pub mod KvCache
pub mod Scheduler
pub mod Generation
pub mod Tokenizer
pub mod Runtime
pub mod Parallel
