-- ===== src/Ingestion.antt =====
-- app/ingestion: what is known of an uploaded document before it is cut into chunks.
pub mod Metadata
pub mod TokenSplit
pub mod Tables
pub mod Semantic
pub mod Sections
pub mod Store
pub mod ChunkRows
pub mod Services
pub mod ParserChoice
pub mod Pipeline
pub mod Worker
mod Examples
