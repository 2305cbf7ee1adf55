-- ===== src/Lib.antt =====
-- Verification of hku_utils, the utility library of hikyuu (hikyuu/utilities). Each component is modelled
-- on its own; in the program they meet as members of one another's users and do not share state.
--
-- Base holds what the modules share: Boolean tests and lists over the native numbers, the signed integers
-- with C++ division, and the size of a `size_t`.
--
-- LruCache models hikyuu/utilities/LruCache.h. The record LruCache is the class, `lru_list` its list from
-- the most to the least recently used key, `cache` the map as an association list; the iterator of a map
-- entry is the entry's key. `insert`, `get`, `try_get`, `contains`, `remove`, `clear`, `size`, `resize` and
-- `set_overflow` are the methods; `prune_if_needed` and `batch_update_dirty_nodes` are the private ones. The
-- pruning loop runs on fuel, one more than the number of entries, since each round removes one. A run that
-- would call `back()` on an empty list is `none`, as is a loop without fuel; no history of calls meets
-- either. Left out: the lock itself, and what an exception of the allocator would leave.
--
-- Ranges models hikyuu/utilities/thread/algorithm.h: `parallel_index_range` and the two kinds of loops over
-- it; Ranges/Loops the loops of a function without a result, those with one task for each index, and those on
-- the global pool. An exception of the function is `none`, or the indices on which it throws; a loop ends with a
-- result, with an exception, never (`blocked`), or outside of a vector (`undefined`), as on a pool without a
-- worker. The pool is seen through its futures, which the loops read in the order of the tasks, and
-- through the order in which the threads make the calls, which is any interleaving. The global pool may be
-- missing or stopped; it is not stopped while a loop runs, and every task that it takes is run.
--
-- Datetime models hikyuu/utilities/datetime/Datetime.h and Datetime.cpp: the constructors from parts and from
-- a number, the parts and the numbers of a point in time, and in Datetime/Periods the steps between days,
-- weeks, months, quarters, half-years and years. Boost's calendar is the record Calendar of Datetime/Boost,
-- its operations with what Boost documents of them. Datetime/Numbering counts the periods of one kind. Left
-- out: texts, the hexadecimal form and the clocks; the parts that a constructor takes are not negative.
--
-- IniParser models the reader and the look-ups of hikyuu/utilities/ini_parser/IniParser.cpp on lists of
-- bytes. A file is its lines; a line takes a Reader to the next one, stops the reading, or throws.
--
-- Queue models the queues of hikyuu/utilities/thread: ThreadSafeQueue.h, WorkStealQueue.h and MQStealQueue.h,
-- with FuncWrapper.h. ThreadPool models hikyuu/utilities/thread/ThreadPool.h over them: each worker is in a
-- phase of its loop, and a step takes it to its next access of what the threads share, so a run is a list of
-- steps in any order. A step that cannot happen, as a wait on an empty queue, is `none`. `stop` and `join`
-- are cut in two around their wait for the workers; `finish` is the second half of both. A task that throws
-- is a task that ends, since a packaged task keeps its exception.
--
-- MqThreadPool models hikyuu/utilities/thread/MQThreadPool.h with its workers and their queues. `submit` is one
-- operation, with the sizes of the queues as they are then; `stop` and `join` are cut in two like those of
-- ThreadPool.
--
-- ResourcePool models the class of that name in hikyuu/utilities/ResourcePool.h with its ResourceCloser. The
-- record Pool holds the members and, around them, the resource objects that exist and the pointers that the
-- users hold. A `new` is an argument, the address that it returns or `none` for an exception; a wait is an
-- argument too, the state that it ends with.
--
-- ConnectPool models hikyuu/utilities/ConnectPool.h with the connections that users hold. `wait_rounds` is the
-- loop of getAndWait, watched for some rounds; before each the other threads do anything.
--
-- VersionPool models ResourceVersionPool of the same file on the record Pool, with the version and the
-- parameter of the pool and of each resource.
--
-- DbUpgrade models hikyuu/utilities/db_connect/DBUpgrade.cpp as the statements that it sends.
--
-- DbConnect models the calls of hikyuu/utilities/db_connect/DBConnectBase.h that change a table. The driver,
-- the subclass that talks to a database, is the record of DbConnect/Sql.antt: its calls answer with a success or
-- an exception, with what SQL databases document of them. DbConnect/TransAction models the class of that name
-- in AutoTransAction.h with the block that uses it. Left out: reads and the texts of the statements.
--
-- Parameter models hikyuu/utilities/Parameter.h and Parameter.cpp: a `boost::any` is a value with its type, and
-- set and get work on a map of those. Parameter/Stream models the saving and loading over an archive, which is
-- the YAS library and a parameter. Left out: the text forms.
--
-- TimeDelta models hikyuu/utilities/datetime/TimeDelta.h and TimeDelta.cpp on whole numbers of microseconds.
-- The hours, minutes and seconds of a Boost duration are a parameter with what Boost documents of them. Left
-- out: the operations on floating-point numbers, the text forms and the time zone.
--
-- TimerManager models hikyuu/utilities/TimerManager.h as a state. TimerManager/Calls holds the calls and `detect`,
-- one round of the detecting thread with the two times that it reads; a time is the microseconds since
-- `Datetime::min()`. The priority queue is a list in the order of the times. The search for a free number runs
-- on fuel, one more than the number of timers, and TimerManager/Numbers shows that it is enough. Functions are
-- seen through the order of their submission. Left out: the waits on the condition, and counts that overflow
-- an `int` in a timer whose duration is a few microseconds.
--
-- Url models hikyuu/utilities/http_client/url.cpp on lists of bytes.
--
-- Not modelled: logging, the operating system's services, the database drivers, the network clients and
-- servers, the plug-ins, and the copies of other projects' code (snowflake.h, LRUCache11.h, base64, md5,
-- moFileReader.h).
pub mod Base
pub mod ConnectPool
pub mod Datetime
pub mod DbConnect
pub mod Parameter
pub mod DbUpgrade
pub mod IniParser
pub mod LruCache
pub mod MqThreadPool
pub mod Ranges
pub mod ResourcePool
pub mod Queue
pub mod ThreadPool
pub mod TimeDelta
pub mod TimerManager
pub mod Url
pub mod VersionPool
mod Tests
