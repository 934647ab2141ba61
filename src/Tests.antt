-- ===== src/Tests.antt =====
-- The theorems at concrete data, and runs of the handlers.
mod Sample
mod Queue
mod Api
mod Site
mod Party
mod Catalogue
mod Servarr
mod Watched
mod Upkeep
