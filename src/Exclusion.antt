-- ===== src/Exclusion.antt =====
-- internal/exclusion: who may use which container, image and namespace at a time.
pub mod Queue
pub mod Acquire
pub mod Semaphore
pub mod KeyedLock
pub mod Oncewait
pub mod Locker
pub mod Entries
pub mod Control
pub mod Tests
