-- ===== src/Platform.antt =====
-- include/ocvsmd/platform: the executors that wait for descriptors.
pub mod Executor
pub mod Kqueue
pub mod Polling
mod Tests
mod KqueueTests
