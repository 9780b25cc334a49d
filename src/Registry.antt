-- ===== src/Registry.antt =====
-- registry/: model specifiers, the names of files and of cache directories, and the models that are
-- found in the caches.
pub mod Spec
pub mod Names
pub mod Discover
mod Tests
