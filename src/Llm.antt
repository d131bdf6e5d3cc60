-- ===== src/Llm.antt =====
-- app/llm: what the program makes of the answers of a language model.
pub mod Parsing
