-- ===== src/Lib.antt =====
-- The library libfrozen, a framework of request-processing backends in C: the data structures of its
-- core and the data types that its requests carry.
--
-- A request is a hash (`hash_t`), an array of keys with typed data. Data is accessed through actions
-- such as ACTION_READ and ACTION_WRITE that a table of handlers answers. Backends keep their own state
-- in lists, buffers and memories. The parts and the files that model them:
--
--   Base.antt         Boolean tests, lists, results and words; no part of the program.
--   ItemList.antt     src/libfrozen/core/list.c: the growable array of pointers (`list`).
--   SafeMath.antt     src/libfrozen/core/libfrozen.c: the checked arithmetic.
--   Memory.antt       src/libfrozen/data/memory/memory_t.c: a block that grows and shrinks.
--   Hash.antt         src/libfrozen/core/hash.c: search, iteration and copy of hashes.
--   Buffer.antt       src/libfrozen/core/buffer.c and buffer.h: chains of chunks.
--   Uint.antt         src/libfrozen/data/uint/uint32_t.c and the files of the same template.
--   Query.antt        src/libfrozen/core/data.c: the search of a handler in the tables of the types.
--   Pool.antt         src/libfrozen/backends/backend/pool/pool.c: the limits on groups of backends.
--   Balancer.antt     src/libfrozen/backends/request/balancer/balancer.c: which backend a request goes to.
--   Murmur.antt       src/libfrozen/backends/hash/murmur/murmur2_32.c: MurmurHash2 over the reads of data.
--   Backend.antt      src/libfrozen/core/backend.c: the graph of backends, their lifetime, and the way of a
--                     request through the graph.
--   Transfer.antt     src/libfrozen/data/default/default_t.c, src/libfrozen/data/slice/slice_t.c and
--                     src/libfrozen/data/slider/slider_t.c: reads and writes of blocks, copies and
--                     comparisons of any data, slices and sliders.
--   Mphf.antt         src/libfrozen/backends/index/mphf/mphf_chm_imp.c and mphf.c: the index that keeps a
--                     number at each vertex of a graph with an edge for each key.
--   HashData.antt     src/libfrozen/data/hash/hash_t.c: the comparison and the copy of hashes as data.
--   Split.antt        src/libfrozen/backends/data/split/split.c: the parts of an input between
--                     occurrences of a string.
--
-- Functions have their C names. State is passed explicitly: an operation takes the state and returns
-- the new one with its result. A pointer is an option where NULL is possible, memory is a list of
-- numbers, and a word is a natural number with its wrap-around written out. `fault` stands for what C
-- leaves undefined, and for a loop without end. The children of a module hold its theorems, its tests
-- and the witnesses of the theorems.
--
-- `realloc`, `strtoul`, the contents of fresh memory and the handlers of other data types are
-- parameters; what is assumed of `realloc` is the record Memory.Realloc.Reallocates. Loops are
-- structural, except those on fuel. The doubling loop of `memory_resize` has 65 rounds: the 64 doublings
-- that it can make before its word wraps to 0, and the last test. The loops of `pool_group_limit`
-- and of `MurmurHash2`, which can run for ever, take their fuel as an argument. So do the recursions of
-- backend.c: `backend_destroy` needs the fuel `destroy_fuel`, which is the rank of the backend plus one,
-- times the longest list of links plus two; `backend_query` needs more than the rank. A rank exists where
-- the graph has no cycles. The loops over a list need more fuel than the list has items, and the copy of
-- a block more than the block has bytes. An insertion into the index needs the fuel `insert_fuel`, one
-- more than the vertices times the edges plus three, as the walk goes down at most once through each
-- vertex; the logarithm of a rebuild needs 63 rounds, the vertices being fewer than 2^62. The three
-- storages of the index are arrays that fail outside their cells. `split_handler` needs a round for each
-- byte of its input and two more.
--
-- Where C leaves a shift of a mask undefined, a query of the index faults, and its theorems ask for values
-- below 64 bits and cells below 8 bytes. A read behind the end of a table of handlers faults as well. The
-- buffers of reads are not NULL, a hash that is copied has arrays of less than 2^32 - 1 used items, and a
-- product of two 16-bit words wraps.
--
-- Not modelled: locks (each operation of a list is one critical section), other threads, files, sockets,
-- shared memory and the terminal, the generated parsers, printing, the configuration of the index and its
-- bdz algorithm, the packed form of a hash, and the remaining backends. Allocations that the source does
-- not test, or whose failure only ends the call, are taken to succeed, except in memory_t.c and the
-- unsigned types.
pub mod Base
pub mod ItemList
pub mod SafeMath
pub mod Memory
pub mod Hash
pub mod Buffer
pub mod Uint
pub mod Query
pub mod Pool
pub mod Balancer
pub mod Murmur
pub mod Backend
pub mod Transfer
pub mod Mphf
pub mod HashData
pub mod Split
