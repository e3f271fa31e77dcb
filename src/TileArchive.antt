-- ===== src/TileArchive.antt =====
-- internal/tilearchive: archive extraction with zip-slip protection, and the tile index.
pub mod Names
pub mod Target
pub mod Extract
pub mod Archive
pub mod Index
mod Tests
