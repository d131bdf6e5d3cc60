-- ===== src/Retrieval.antt =====
-- The retrieval chain, app/retrieval: one child for each module of the package.
pub mod Models
pub mod Rows
pub mod Planner
pub mod Fusion
pub mod Hybrid
pub mod Rerank
pub mod Context
pub mod Evidence
mod Examples
