-- ===== src/Infra.antt =====
-- src/infra/io: the pool of contexts, and files that are downloaded.
pub mod IoContextPool
pub mod FileSink
