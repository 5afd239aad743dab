-- ===== src/Utils.antt =====
-- src/utils: the buffers that the other parts are built on.
pub mod RingBuffer
pub mod BufferPool
mod Tests
