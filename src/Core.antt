-- ===== src/Core.antt =====
-- The order book engine: include/qf/core and src/core.
pub mod Order
pub mod Book
pub mod PipelineTypes
pub mod Manager
pub mod SpscQueue
pub mod RingBuffer
