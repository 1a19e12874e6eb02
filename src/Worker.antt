-- ===== src/Worker.antt =====
-- horovod/runner/elastic/worker.py: the kinds of host updates and the notification manager.
pub mod Update
pub mod Client
pub mod Manager
mod Deliver
mod Tests
