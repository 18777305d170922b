-- ===== src/Cdb.antt =====
-- cdbx/cdb32.c: the constant database, from the bytes up.
pub mod Arrays
pub mod Word
pub mod Hash
pub mod Slots
pub mod Sort
pub mod Writer
pub mod Maker
pub mod Commit
pub mod File
pub mod Find
pub mod Iter
pub mod Committed
pub mod Calls
