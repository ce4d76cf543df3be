-- ===== src/Lib.antt =====
-- A verification library for K9R5: for the mesh runtime, where a host core (CVA6) offloads kernels to
-- two clusters of cores (Snitch and Spatz) through a mailbox in each cluster's scratchpad, and for the
-- components of the simulated memory system under them.
--
-- Parts. The host writes a job descriptor into a mailbox and rings a doorbell (`hes_post`), then
-- polls the mailbox until the job's number is published as done (`hes_wait`). In the cluster, the
-- control core takes the job: it reserves working storage, copies the operands into the scratchpad
-- (staging), or refuses the job; the compute cores each call the kernel on their slice; the control
-- core copies the results out and publishes the job.
--
-- Files, and the code that they model (paths from the repository's root):
--   Base        words of 32 bits, lists, arrays, counted loops and powers of two, which the files share
--   Machine     runtime/mesh/hes_system.h and hes_cluster.h: constants and roles of the cores
--   Job         runtime/mesh/hes_job.h and hes_mailbox.h: kernels, argument slots, `hes_mailbox_t`
--   Dma         runtime/mesh/hes_dma.h: the registers of the iDMA and the transfers enqueued
--   Cluster     runtime/mesh/cluster_main.c, with a child for each of its parts:
--     Slice       `slice`              Operands    `op_add`, `plan_operands`
--     Scratch     `plan_scratch`, `reserve_scratch`
--     Stage       `stage_in`, `stage_out`
--     Dispatch    `run_slice`          Loop        `main`
--   Host        runtime/mesh/hes_host.c and hes_host.h:
--     State       its globals          Engines     the engine table, `hes_engine_*`
--     Post        `hes_post`           Wait        `hes_wait`
--     Offload     `hes_offload`, `hes_check` and the wrappers of the kernels
--   Protocol    the two runtimes as one system of steps over one mailbox: posts, the start and the two
--               ends of a wait, and the cluster's steps; GiveUp is about jobs that were given up
--   Ssr         runtime/snitch/snitch_ssr.h: the registers of a stream and the loop macros
--   Kernel      the kernels, over floats that are any type with the operations of the code:
--     Gemm, Compute  runtime/snitch/kernels/gemm_fp32_ssr.c: the streams of `gemm_ssr`, and its loops
--     Rvv         runtime/spatz/kernels/gemm_fp32_rvv.c: the same product with vectors
--     Conv        runtime/snitch/kernels/conv2d_fp32_ssr.c
--     Fft         `bit_reverse` and `fft_radix2` of runtime/common/kernels/mfcc_fp32.c
--     Mfcc        `Mfcc_fp32_fp32` of that file; Mfcc/Streamed: runtime/snitch/kernels/mfcc_fp32_ssr.c
--   App         runtime/mesh/mnist_main.c (Mnist), runtime/mesh/kws_main.c (Kws), and their argmax
--   Io          runtime/common/miniio.h and `_sbrk` of runtime/common/syscalls.c
--   Cache       targets/hetero/timing_cache.cpp: geometry, `lookup`, `probe`, `mark_dirty`
--     Access      `access`             Request     `req`, `req_writeback` and the traffic they cause
--     Lru         sets as lists in the order of use, and what LRU means for them
--   Dram        targets/hetero/dram_core.hpp: the parameters, banks and channels
--     Mapping     `parse_mapping`, `decode`
--     Refresh     `refresh`            Plan       `plan`, `commit`
--     Burst       `burst`              Hyper      `access_hyperram`
--     Queue       `queued`, `drain_idle`, `issue_oldest`, `retire`; Queue/Backing puts `burst` behind it
--     Access      `access`             Build      the constructor and `check_pow2`
--     Component   `Dram::req` of targets/hetero/dram.cpp
-- The names of the code are kept, without the prefix `hes_`.
--
-- State. The globals of hes_host.c are the fields of `Host`, beside the mailboxes and the stores to
-- peripherals; the globals of cluster_main.c and the variables that `main` keeps across jobs are
-- the fields of `Cluster`. An operation takes the state and returns the new one with its result.
-- Numbers are natural numbers, and every 32-bit operation wraps (`add32`, `sub32`, `mul32`).
--
-- Bounds and fuel. The polls of `hes_wait` are bounded in the code, by 200 beats of 65536 polls;
-- the model recurses on the same two numbers. The copy of the arguments recurses on the bound of
-- its loop, sixteen. All other loops of the runtime are over lists of operands or counts of the code.
-- The number printers recurse on the room of their buffer, 20 or 16 digits; running out of it would
-- be a write in front of the buffer.
--
-- `refresh` recurses on one more than the time that it looks at, in picoseconds, and each of its
-- rounds takes one or more; a HyperBus transfer recurses on its bytes. The loop of `burst` recurses
-- on fuel that its caller gives; Burst/Ends is about how much is enough.
-- The loops of the write queue recurse on the writes that are in it, and the loop of `access` on a
-- round for each byte and one.
-- A counted loop of a kernel recurses on its count (`for`). The strip of columns in Rvv recurses on
-- the columns that are left, since each grant takes one or more; the loops of the FFT that count bits
-- and double lengths have 33 rounds, as many as a word of 32 bits has doublings, and one.
--
-- Not under src/, hence parameters: what the clusters do while the host waits (`seen`, `env`), the
-- cycle counter (`now`), the bounds of the heap that the linker scripts set (`Heap`), the address
-- generator of the streams (`Delivers`, `InTurn`) and the memory that it reads (`IsMemory`), the
-- vector length that is granted (`vsetvl`, `Grants`), floats with their comparison and logarithm
-- (`Math`), the generic kernels that small shapes are given to, and the generated network with its
-- data.
--
-- The next level of a cache, and the memory behind the memory's timing, are parameters too: a function
-- from a request and its own state to its new state and an answer.
--
-- Not modelled: hardware barriers and interrupts (a barrier is the end of
-- a step, and the wake-up is a step), traps, what a DMA transfer does to memory, console text (lines
-- are values), the other applications, probes and tests, a cache's back door for the debugger
-- and its energy in joules, the loading of the memory's parameters, and everything that is not C or C++.
pub mod Base
pub mod Machine
pub mod Job
pub mod Dma
pub mod Cluster
pub mod Host
pub mod Protocol
pub mod Ssr
pub mod Kernel
pub mod App
pub mod Io
pub mod Cache
pub mod Dram
