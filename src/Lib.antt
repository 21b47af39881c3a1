-- ===== src/Lib.antt =====
-- varc: a read-only cache of remote objects in sparse files.
--
-- A reader (proxy/handler.go) opens an object through the cache (cache/cache.go). Each object has an
-- item (cache/item.go): a sparse file and the list of the byte ranges in it that are present
-- (ranges/ranges.go). A read of bytes that are not present waits in the item's scheduler
-- (internal/engine/scheduler/scheduler.go), which starts and extends range fetches; what a fetch
-- reads from the origin it writes to the item, only where bytes are missing, and tells those whose
-- range has become present.
--
-- Files:
--   Base       numbers, int64, lists, Boolean tests, and Go's binary search.
--   Ranges     ranges/ranges.go: every method of Range and Ranges, under its own name. The children
--              prove one operation each: Valid (order, bounds, and which bytes are covered), Search,
--              Absorb, Coalesce, Insert, FindAhead, Find, FindAll, Queries, Size.
--   Cache      Write is cache/item.go: HasRange, FindMissing, WriteAtNoOverwrite. Item is the life of
--              an item, with Open (openLocked), Release (release, closeAfterGrace), Space
--              (resetForSpace) and Read (readAt, readAtOnce, ensureLocked, Reader.Read); Trust says
--              when its bytes can be trusted, and its children that each operation keeps that. Clean
--              is the cleaner of cache/cache.go; Quotas has what a pass of it achieves. Existing is
--              loadExistingMeta of cache/cache.go, and its Loads what is taken over from an earlier run.
--   Scheduler  internal/engine/scheduler/scheduler.go: `Downloaders` and its critical sections, with
--              Item (what it asks of the item), Waiters (answers, the kick, Close), Fetch (one
--              `downloader`), Run (the calls in any order); Serving, Answers, Stopping and Closing
--              prove what the scheduler promises.
--   ObjectIo   internal/engine/objectio/retry_reader.go: RetryReader, which opens an object again
--              where a read failed. Spans has the promises of an object and the spans that are
--              opened, Reopen what an open again leaves, Reads what Read returns.
--   ChunkStream internal/engine/chunkstream/reader.go: which reader of an object is chosen. Sequential is
--              sequential.go; Live has the promises of the object and what an opened chunk is, Prepare
--              which chunk is opened next, Full is io.ReadFull, Reads and Seeks what Read returns.
--              Parallel is parallel.go, with Seek; Tiles has how its streams cover
--              the object, Seeks what Seek leaves.
--   BufferPool internal/engine/bufferpool/pool.go: the pool of buffers; Counts has its counters.
--   PageBuffer internal/engine/bufferpool/reader_writer.go: RW on the bytes of its pages. Bytes and
--              Fills have what the pages hold, Reads and Writes what one call does, Queue the queue of
--              bytes that RW implements; Copies is WriteTo and ReadFrom.
--   Origin     cache/source_object.go and the requests of source/http/source.go; Objects gives the
--              retrying reader its object; Requests says which
--              bytes are asked for.
--   HttpSource source/http/source.go: Open and OpenRange on the responses of the origin, and what is read
--              from their headers. Numbers reads back what is written, Accepts and Sizes say which
--              responses are accepted.
--   Proxy      proxy/handler.go: ServeHTTP and readSeeker; Serving says what is served.
--   StreamBuf  internal/engine/streambuf/reader.go, which reads a source ahead, with Skip (SkipBytes) and
--              WriteTo, and readutil/fill.go. Produced is ReadFill, Calls what one call does; Fifo runs
--              the goroutine and the reader in any order.
--   Caddy      caddy/module.go: ByteSize is parseBytes, Caddyfile UnmarshalCaddyfile, Provision the
--              options, the checks and the life of the module. Texts, Units and Bounds say how sizes are read,
--              Decimals, Accepts and Written what becomes of the lines of a Caddyfile. The options themselves and
--              their check are Cache/Options (cache/options.go).
--
-- Conventions. An int64 is its two's complement bit pattern, a number below 2 ^ 64; add64, sub64,
-- lt64 and le64 wrap around and compare as Go does, and the theorems state where no overflow is
-- assumed. `int`, by which Go counts the bytes of a buffer, is a natural number. A nil error is
-- `none`. Slices are lists. A loop that Go bounds by a slice is structural recursion; the loop of
-- coalesce has a bound on its rounds, one for each later element, FindAll one for each byte,
-- which is enough since every round takes at least one byte. Mutual exclusion is the program's: each
-- method under a mutex is one function, and an execution is a list of calls in any order. A file
-- is a function from offsets to bytes; os.File.WriteAt is a parameter with its documented behaviour
-- (`IsDisk`). An object and its streams are a parameter with a state of its own (`IsObject`). The
-- loop of RetryReader.Read has a bound on its rounds; the bytes wanted and the tries left are enough.
-- A call on the buffer pool is given what the semaphore and the allocator answer.
-- Of a system call, its answer is an argument; where cache/item.go releases the mutex of an item, so is
-- what others do to the item in the meantime. The cleaner runs on a store of items that is a parameter
-- with the operations it uses (`Store`), without a law but for the sorting; `logged` writes down which
-- items are handed to resetForSpace. The loops of RW.Read and RW.Write have a bound of one more
-- round than bytes, since each round moves a byte; what the pool gives is an argument. A text in a
-- header is a list of bytes; dates and white space are parameters (`Formats`).
-- The loop of the sequential reader's Read has a bound of one round for each byte, which is enough since
-- each chunk has a byte that is not yet read; io.ReadFull and ReadFill likewise.
-- The parallel reader's loops have a bound on their rounds, and `none` is that they have not ended by then;
-- whether they end depends on the goroutines of the streams, whose answers, with those of the buffers,
-- are arguments without a law (`Streams`). Caddy's Dispenser is given by the
-- arguments and the lines that it delivers, and the texts of a Caddyfile are ASCII.
--
-- Not modelled: the walk of loadExisting, Open, KickCleaner and Close of cache/cache.go, the headers of
-- requests and responses, and what Caddy does with a template or a URL; the wrappers of system calls,
-- which only call them. Waiting is not modelled: a function that waits is given the state when it goes on.
pub mod Base
pub mod Ranges
pub mod Cache
pub mod Scheduler
pub mod ObjectIo
pub mod ChunkStream
pub mod BufferPool
pub mod PageBuffer
pub mod Origin
pub mod HttpSource
pub mod Proxy
pub mod StreamBuf
pub mod Caddy
