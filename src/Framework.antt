-- ===== src/Framework.antt =====
-- src/framework.c, src/framework.h: the system calls that yield instead of blocking, the queues of
-- accepted connections, and the run loop.
pub mod Wrapped
pub mod Queue
pub mod Loop
mod Tests
