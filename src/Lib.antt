-- ===== src/Lib.antt =====
-- The LSM-tree storage engine of src/: a write-ahead log, a skip-list memtable, SSTables with a
-- sparse index, a block Bloom filter and an LRU block cache, and a compactor from level 0 to level 1.
--
-- A write is appended to the log and put in the memtable; a full memtable becomes a level-0 table
-- and the log is cleared; four level-0 tables are merged with all others into level-1 tables. A read
-- asks the memtable and then the tables from the newest to the oldest.
--
-- Files and the code that they model:
--   Keys: std::string as a list of bytes, with the order and the equality of std::string.
--   Bloom: src/sstable/block_bloom_filter.h (hash, insert, mayContain, the constructor;
--     serialize and deserialize stand in Sstable.File). The floating-point formula for the number of
--     bits is an argument.
--   Sstable: src/sstable/sstable.h, sstable_builder.cpp, sstable_reader.cpp. Format has the bytes of
--     entries (writeEntry, writeString, parseBlockEntries), Build has SSTable::write up to the data
--     section, the index and the filter, Search has the binary search, Read has SSTable::get behind
--     the block cache. A table is its data section, its index and its filter. File has the bytes of the
--     whole file, with the index, the filter and the footer, and the constructor of SSTable over a
--     stream with a position and a failbit, up to the largest key; what variables without an initial value hold is an
--     argument. The other modules take a file to be the table in it.
--     Iterate has SSTableIterator and createIterator as the list of entries that next() hands out,
--     and smallestKey and largestKey.
--   Memtable: SkipList and Memtable in src/memtable/skip_list.h, for one writer. A skip list is its
--     nodes in the order of level 0, each with its height; the links of a level join the nodes that
--     are higher than it. The height that randomHeight gives is an argument.
--   Arena: Arena in src/memtable/arena.h, its blocks as addresses and sizes; the addresses that
--     new char[] gives are arguments.
--   Fault: the points of src/util/fault.cpp, from arm to a hit that fires.
--   Cache: BlockCache in src/sstable/lru_block_cache.h, its map and list as one list of nodes, and
--     SSTable::get through it. Capacities that the C++ library chooses are arguments.
--   Merge: the heap of sorted inputs that the compactor and the range scan use.
--     std::priority_queue is a list in heap order. A heap node carries the entries that its iterator
--     has not read, since the heap never holds two nodes of one iterator.
--   Compaction: LeveledCompactor::run in src/compaction/leveled_compactor.cpp. The module has phase 1,
--     Directory the data directory, Run the rest: the threshold, the sweep of temporaries, the
--     numbering, the staged outputs, their publication, its roll back, the removal of the inputs. What
--     the file system and the fault points answer is a record of answers, one for each call that can
--     fail. A file name is a level, a counter and a flag for .tmp; a file is the table in it. What
--     the iterators over the inputs read is one of the answers.
--   Wal: Record has WAL::crc32 and the buffer of WAL::writeEntry (src/wal/wal_writer.cpp), Recover
--     the parser of WAL::recover (src/wal/wal_reader.cpp). Ring has the submitted writes and their
--     completions (recordFailure, resubmit, reap, drain), Append has writeEntry and clear, Commit has
--     waitDurable and sync as a step relation of any number of threads. io_uring is a queue of eight
--     slots and the requests that the kernel has; which request completes and with which result, and
--     what io_uring_submit returns, comes from outside.
--   Engine: src/db/lsm_engine.cpp. The module has LSMEngine::get and LSMEngine::scan, over the memtable
--     and the vector of tables; Writes has put, del, flush, flushMemtable and recoverFromWAL as functions
--     of the engine to the engine that the call leaves, whether it returns or throws, with the log as
--     the list of its records, which a write that throws can have reached or not; Load has loadSSTables and sstPath.
--
-- Bytes are natural numbers; words keep their wrap-around written out as a remainder. memcpy of an
-- integer is little-endian. Loops that are not structural take fuel: the number of bytes of the
-- buffer plus one for the two parsers and for the constructor's last block, the number of entries in
-- the heap for the merge, the number of index lines for the binary search; the theorems are about the loops with that fuel.
--
-- Not modelled: the destructors that the arena runs, the lock-free retries of concurrent writers,
-- what a fault does to the process, what a crash between two calls of a compaction leaves on disk, the
-- bodies of file-system calls, the lock of the directory, the destructor of the engine, an int counter of tables that overflows, tests, benchmarks and tools.
pub mod Prelude
pub mod Keys
pub mod Bloom
pub mod Sstable
pub mod Arena
pub mod Memtable
pub mod Fault
pub mod Cache
pub mod Merge
pub mod Compaction
pub mod Wal
pub mod Engine
mod Tests
