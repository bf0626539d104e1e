-- ===== src/Storage.antt =====
-- packages/storage/src: the paths of the stored objects.
pub mod Paths
