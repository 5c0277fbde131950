-- ===== src/Lib.antt =====
-- Verification of my_codebase, a collection of storage components in C++: chunking and
-- fingerprints for deduplication, a small key-value index, message queues and socket framing.
--
-- The parts and how they work together. A driver (src/app/chunking_test.cc) opens a file and has
-- one of three chunkers load it buffer by buffer and cut each buffer up; the Rabin chunker slides
-- the fingerprint of src/dedup/rabin_poly.cc over it, FastCDC a gear hash, and the fixed-size
-- chunker needs neither. A factory (include/dedup/chunker_factory.h) or the driver itself makes
-- the chunker. The driver then has the Finesse features of each chunk computed, from the same
-- fingerprint. The sizes come from the configuration. The database, the queue, the two kinds of
-- connection and the encryption stand on their own.
--
-- Which file models which part:
-- - Rabin: src/dedup/rabin_poly.cc and include/dedup/rabin_poly.h. `fls32`, `fls64`, `polymod`,
--   `polymult`, `polymmult` and `Append8` are functions of the same names; `RabinFPUtil` and
--   `RabinCtx_t` are records, and the methods return the new context, whose field `fp` is what
--   `SlideOneByte` returns. A polynomial over the field of two elements is the number of its
--   coefficients. The modules below it follow the proof: Poly (products and congruence), Words
--   (bits of machine words), Polymult, Polymod, Fls, Append, Tables, Window (the invariant of a
--   context), Rolling (whole strings).
-- - Chunker: include/dedup/abs_chunker.h and src/dedup/abs_chunker.cc. Loaded has the invariant of
--   the buffer. Fixed, FastCdc and RabinCdc model `GenerateOneChunk` of src/dedup/fix_chunker.cc,
--   fastcdc_chunker.cc and rabin_chunker.cc, Interface the virtual methods with the laws that
--   callers rely on, Instances the three chunkers as instances of it, Driver the loops of
--   src/app/chunking_test.cc, and Factory the choice of a chunker there and in
--   include/dedup/chunker_factory.h.
-- - Finesse: src/dedup/finesse_util.cc; Local, Groups, Returns.
-- - Compress: src/compression/compress_util.cc; RoundTrip.
-- - InMemDb: include/database/in_mem_db.h and src/database/in_mem_db.cc; Index (the map), Load and
--   Persist (the file), Ends (the loop on any file).
-- - StoreDb: src/database/leveldb_db.cc and rocksdb_db.cc over a store that is a parameter; Agree
--   compares them with InMemDb.
-- - Database: include/database/abs_db.h as an interface that the three databases fill, and
--   db_factory.h; Calls compares any sequence of calls with a map, Factory what the factory makes.
-- - BlockedMq: include/message_queue/blocked_mq.h and abs_mq.h, as a step relation; Order, Wakeup
--   and Stuck.
-- - LckFreeMq: include/message_queue/lck_free_mq.h as steps of a producer and a consumer, and
--   mq_factory.h; Fifo.
-- - Socket: src/network/socket.cc. `Send` and `Recv`, with Send and Recv for their theorems; Setup
--   has `Init`, `Listen` and `Finish`.
-- - Ssl: src/network/ssl_conn.cc. Transfer models `SendData` and `ReceiveData`, Setup the
--   constructor and destructor, `ConnectSSL`, `ListenSSL`, `Finish` and `ClearAcceptedClientSd`;
--   Records says how OpenSSL carries bytes, Send and Receive treat one call, Channel any sequence
--   of calls, OpenSsl and Posix are what the code calls, and Handles and Lifetime follow
--   descriptors, sessions and contexts.
-- - Crypto: src/crypto/crypto_util.cc. Types has the enumerations of include/const_var.h and what
--   is used of OpenSSL, Promises what its documentation says of the ciphers, Settings and
--   RoundTrip treat `EncryptWithKeyIV` and `DecryptWithKeyIV`, Hashing `GenerateHash`, Signing
--   `GenerateHMAC`.
-- - CryptoTest: src/app/crypto_test.cc, the options and the loop over the file; Passes.
--   CompressTest: the same of src/app/compress_test.cc; Options, Ratio. RabinTest: the loop of
--   src/app/rabin_test.cc; Totals.
-- - MqTest: the two threads of src/app/mq_test.cc on the lock-free queue, as steps; Received.
-- - Process: calls in sequence, any of which may end the process by `exit`.
-- - Configure: src/util/configure.cc. Tool: `CompareLimit` and `DivCeil` of include/define.h.
-- - Stream and Memory: `std::ifstream::read` and the bytes of unsigned integers, as the code uses
--   them. Base and Bits: shared names, lists, machine words and the bitwise operations.
-- - Tests: the theorems at concrete inputs, and runs; Libraries has small ciphers and hashes for
--   them.
--
-- How the code is written down. Numbers are natural numbers, and every operation on a machine word
-- has its wrap-around written out (`u8`, `u32`, `u64`, `sub64`). A method takes and returns the
-- object. A read outside a buffer is `none`, and so is a chunk that does not fit the buffer it is
-- copied to. An `int` that holds the result of `read` or `write` has its narrowing written out.
-- Memory that `malloc` hands out is a parameter. The bytes of a `uint32_t` or `uint64_t` are those
-- of a machine that stores the lowest byte first.
--
-- Bounds and fuel. `log2_floor` and `count_halvings` have 64 rounds, since a 64-bit number has at
-- most 64 halvings. `find_chunk` has as many rounds as bytes remain; it ends at the last of them.
-- `cut_buffer`, `chunk_file`, `load_items`, `send_loop`, `recv_loop`, `test_file`, `measure_file`
-- and `slide_file` take their number of rounds as an argument, and the results below name a number
-- that is enough. `send_data` and `receive_data` start their loops with one round more than the
-- message has bytes, which is enough because a call of OpenSSL that succeeds moves at least one.
-- `mask_of` is `none` from 31 bits on, where the shift of an `int` overflows, and
-- `new_rabin_fp_util` from a window of `2 ^ 32` bytes on, where a loop of the constructor never
-- ends.
--
-- Parameters. The parsed configuration file (`Ptree`), the kernel's `read` and `write` on a socket
-- (`Source`, `Sink`), its calls on sockets and descriptors (`Posix`), OpenSSL (`Connection`,
-- `OpenSsl`, `Ciphers`, `Digests`, `Signers`; what it documents is a hypothesis, `IsConnection`,
-- `Holds`, `IsCiphers`, `IsDigests`, `IsSigners`), the hash of the super-features (XXHash64), the
-- compression libraries (`Libraries`), the lock-free queue of moodycamel (`ReaderWriterQueue`),
-- the key-value stores on disk (`Store`), and the contents of fresh memory.
--
-- Not modelled: logging and timing, the other test programs and the tutorials, and the copies of
-- other projects (xxHash, the moodycamel queue, the thread pools). Floating point:
-- `round(log2(n))` is computed exactly.
pub mod Base
pub mod Bits
pub mod Tool
pub mod Memory
pub mod Socket
pub mod Stream
pub mod Configure
pub mod Rabin
pub mod Chunker
pub mod Compress
pub mod Finesse
pub mod InMemDb
pub mod StoreDb
pub mod Database
pub mod BlockedMq
pub mod LckFreeMq
pub mod Process
pub mod Posix
pub mod Crypto
pub mod Ssl
pub mod CryptoTest
pub mod Tests
pub mod RabinTest
pub mod CompressTest
pub mod MqTest
