-- ===== src/Tables.antt =====
-- The chained tables of queue/cctools/dttools/src: set.c, itable.c and hash_table.c. The three
-- files hold one program over three kinds of entry; `Core` is that program, `Itable`, `HashTable`
-- and `Set` are the files, and the other modules are the theory of `Core`.
pub mod Key
pub mod Chain
pub mod Core
pub mod Placed
pub mod Insert
pub mod Iterate
pub mod Move
pub mod Remove
pub mod Itable
pub mod Jenkins
pub mod HashTable
pub mod Set
