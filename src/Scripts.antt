-- ===== src/Scripts.antt =====
-- scripts: the tools for development, as what they ask of the database and of the API.
pub mod Seed
pub mod FakeWorker
pub mod UploadMentalist
