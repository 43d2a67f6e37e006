-- ===== src/Wal.antt =====
-- The write-ahead log: src/wal/wal.h, src/wal/wal_writer.cpp, src/wal/wal_reader.cpp.
-- Record: the bytes of one log record. Recover: the parser of WAL::recover. Ring: the completions of
-- the submitted writes. Append: WAL::writeEntry and WAL::clear. Commit: group commit.
pub mod Record
pub mod Recover
pub mod Ring
pub mod Append
pub mod Commit
