-- ===== src/Lib.antt =====
-- A verification library for the C++ server library lce. It models parts of the classes under
-- include/ and src/, and proves what they promise to the code that calls them.
--
-- The program. A server reads bytes from a connection into a `CSocketBuf` (include/CSocketBuf.h). A
-- package filter (include/CPackageFilter.h and its subclasses) says whether the buffer begins with a
-- whole package; the package is handed to a worker and removed from the buffer. Workers exchange
-- values as `CAnyValue`s (include/CAnyValue.h) in a binary format. Processes exchange messages
-- through a `CBufferQueue` (include/CBufferQueue.h) in shared memory; threads pass tasks on through a
-- `CTask`, a `CBlockQueue` or a `CCircleQueue`. A `CPackage` packs the fields of a
-- message; `CLruCache` and `CBitmap` are containers for an application. Forms are decoded by the
-- functions of src/Utils.cpp, configuration files are read by `CConfig` with the string functions
-- of include/StringHelper.h.
--
-- The files.
-- - Prelude: lists and words over the native numbers. Prelude/Memory is a buffer, a function from an
--   index to what stands there, with `load` and `store` for `memcpy`; Prelude/Cyclic is a buffer
--   whose indices go round; Prelude/Words has the byte orders and the 64-bit sums and differences.
-- - BufferQueue: `attach`, `create`, `push`, `pop`, `empty`, `full` and `size` of `CBufferQueue`.
--   The header and the data are a record. BufferQueue/TwoPart has the operations on two buffers.
--   BufferQueue/Spec is the bounded FIFO that a client may rely on, BufferQueue/Frames says which
--   messages a queue holds, and Push, Pop, Client and the two files under TwoPart prove that
--   the operations do what the FIFO does.
-- - SocketBuf: every operation of `CSocketBuf`. SocketBuf/Contents says which data a buffer holds.
-- - AnyValue: `encode` of `CAnyValue`; AnyValue/Decode is `decode`, AnyValue/Valid the limits of
--   the format, AnyValue/Total and AnyValue/RoundTrip the proofs.
-- - PackageFilter: `isWholePkg` and `getRealPkgData` of `CH2T3PackageFilter`,
--   `CH2ShortT3PackageFilter` and `CRawPackageFilter`.
-- - FormUrl: `FormUrlEncode`, `FormUrlDecode` and `charToHex`.
-- - CircleQueue: every operation of `CCircleQueue` (include/CCircleQueue.h), a ring that passes work
--   between two threads; CircleQueue/Refine has the FIFO that it is.
-- - BlockQueue: the critical sections of `CBlockQueue` (include/CBlockQueue.h), with a wait as a
--   result; BlockQueue/Steps has the FIFO, BlockQueue/Schedule threads that
--   take turns. A `pop` that had to wait goes on without the lock in the code; that part is not
--   modelled, and turns end with the first `pop` that has to wait.
-- - LogBuffer: `CLogBuffer` (include/CLogBuffer.h), the buffer of the asynchronous log.
-- - Package: every operation of `CPackage` (include/CPackage.h). Package/Left says what is left to
--   read, Package/Reads what a checked read does, Package/Items and Package/Safe are about whole
--   messages and sequences of reads, Package/Seek is about `seek`.
-- - LruCache: the operations of `CLruCache` (include/CLruCache.h), the nodes of the list in a heap.
--   LruCache/Recency is the list of entries that a client may rely on. LruCache/Chain, Links and
--   Unlinks are about the doubly linked list, Keys and Holds about the hash map beside it, Evict
--   about the loops, Calls and Refine about an operation, Serve about a run of operations.
--   LruCache/Shards is `CLruCacheV2`, 32 caches with a lock each; Spread and Scatter prove that
--   they are caches on their own. The address that `new` gives is an argument of `set`.
-- - StringHelper: the functions of include/StringHelper.h but `ToStr`. StringHelper/Find is about
--   `std::string::find`, Replace, Split, Trim and Middle about a function each.
-- - BitMap: `CBitmap<1>`, `<2>`, `<4>` and `<8>` (include/CBitMap.h). BitMap/Fields is about a field
--   in a byte, by going through all bytes, BitMap/Access about the whole bitmap.
-- - Task: the queue of `CTask` (include/CTask.h, src/CTask.cpp), with the critical sections of the
--   dispatching and the working threads as steps; Task/Order is about every order of their turns.
-- - Config: `loadConfig` and `getValue` for strings of `CConfig` (src/CConfig.cpp), on the functions of
--   StringHelper; Config/Values and Config/Sections are about the lines of a file.
-- - CommMgr: the connections of `CCommMgr` (src/CCommMgr.cpp), on SocketBuf and PackageFilter. The
--   system and the application's processor are a record of functions of what happened so far; a
--   processor calls `write` and `close` from its callbacks. CommMgr/Output has what sends,
--   CommMgr/Reading `onTcpRead`, CommMgr/Accepting how connections come about. CommMgr/Sound is about
--   managers in use and what an operation leaves of a connection's receiving side, CommMgr/Quiet about
--   closing, CommMgr/Writes, Stream, Callbacks and Flush about sending, CommMgr/Cuts, Round, Loop,
--   Received and Receive about receiving, CommMgr/Frames, Talk and Conversation about a connection
--   that speaks in frames, CommMgr/Datagram, Emptied and Datagrams about `onUdpRead`, CommMgr/Opened
--   and Connected about connections that come about, CommMgr/Limit about how many `onAccept` opens.
--   The size of `m_vecClients`, which `init` computes in single precision, is an argument of
--   `onAccept` and `connect`; a socket from there on is an index out of range.
-- - Examples: concrete runs.
--
-- Bounds and fuel. Words of a `CBufferQueue` have 64 bits and wrap; a queue in use has at most 2^32
-- bytes, and messages fewer than 2^63, so that the sums of the code do not wrap. The `int`s of a
-- `CSocketBuf` are natural numbers, which is what they are while the allowed maximum is below 2^30.
-- The loop of `addData` has fuel for `allow_max + 2` rounds: a round either moves the data to the
-- front, once, or grows the buffer. `decode` has fuel for as many levels as there are bytes: a level
-- takes a byte. A `CCircleQueue` has fewer than 2^32 slots, a
-- `CLogBuffer` fewer than 2^63 bytes. A `CPackage` stays below 2^31 bytes, where its `int`s hold every
-- length. The loop of `clearList` has fuel for one round more than the list has nodes. The loops of
-- `ReplaceStr` and `SplitStr` take their fuel as an argument; one round more than the string has
-- characters is enough. The loop of `onTcpRead` has fuel for one round more than the buffer has
-- bytes, and a round takes at least one. The keys of a `CLruCache` are natural numbers. A bitmap is so
-- much smaller than 2^64 that the computation of its memory does not overflow.
--
-- Not modelled: what is done by the system or by other libraries (sockets, epoll, threads, files,
-- MySQL), the making of sockets, timers and messages of `CCommMgr`, `CNetWorker`, whose
-- handlers are those of `CCommMgr`, the HTTP classes, the bitmaps whose fields cross bytes,
-- `CAnyValue`'s text formats and accessors, the conversions of `CConfig::getValue`, and the
-- interleaving of two processes at one queue. What `new` leaves in fresh memory is a parameter.
pub mod Prelude
pub mod BufferQueue
pub mod SocketBuf
pub mod StringHelper
pub mod AnyValue
pub mod FormUrl
pub mod PackageFilter
pub mod CircleQueue
pub mod LogBuffer
pub mod BlockQueue
pub mod Package
pub mod BitMap
pub mod Task
pub mod Config
pub mod CommMgr
pub mod LruCache
pub mod Examples
