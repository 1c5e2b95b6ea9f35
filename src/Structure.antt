-- ===== src/Structure.antt =====
-- The containers of src/structure/: their sizes, memory, buffers, vectors, strings, buffered input
-- and output, the hash table and the tables on top of it.
pub mod Util
pub mod Memory
pub mod Buffer
pub mod Vector
pub mod Str
pub mod BufferIo
pub mod HashTable
pub mod StringTab
pub mod HeaderTab
pub mod DList
