-- ===== src/Agent.antt =====
-- app/agent: the loop in which the model decides on its own which tools to call.
pub mod Messages
pub mod Conversations
pub mod Runner
mod Examples
