-- ===== src/Evidence.antt =====
-- Evidence: documents are cut into chunks; chunks that retrieval finds become candidates, which
-- are ranked and selected for a context.
pub mod Model
pub mod Chunking
pub mod Segments
pub mod Paragraphs
pub mod Pieces
pub mod Coverage
pub mod Chunked
pub mod Refusals
pub mod Hybrid
pub mod Retrieval
pub mod Union
pub mod Ranking
pub mod Order
pub mod Kept
pub mod Collapse
pub mod Safety
pub mod Policy
pub mod Context
pub mod Selection
pub mod Limits
pub mod Flow
mod Tests
mod ChunkTests
