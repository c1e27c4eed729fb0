-- ===== src/DataType.antt =====
-- kernel/data_type: the containers of the kernel.
pub mod Queue
pub mod LinkedList
pub mod Sequence
pub mod BitMap
pub mod Buffer
