-- ===== src/Sstable.antt =====
-- SSTables: src/sstable/sstable.h, sstable_builder.cpp, sstable_reader.cpp.
-- Entries: sorted entry lists. Format: the bytes of an entry and of a block. Build: the data
-- section and the sparse index. Search: the binary search of the index. Read: point and range reads.
pub mod Entries
pub mod Format
pub mod Build
pub mod Search
pub mod Read
pub mod Iterate
pub mod File
