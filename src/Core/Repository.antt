-- ===== src/Core/Repository.antt =====
-- tom-notifier-core/src/repository/notifications_repository_impl.rs, over the calls of the
-- database's driver.
pub mod Indexes
pub mod Documents
pub mod Impl
pub mod Meaning
pub mod Promises
pub mod Acked
