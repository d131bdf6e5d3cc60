-- ===== src/Tools.antt =====
-- app/policy, app/tracing/audit.py and app/tools: who may run which tool, and the gate through
-- which every tool is run.
pub mod Policy
pub mod Gate
pub mod Guard
mod Examples
