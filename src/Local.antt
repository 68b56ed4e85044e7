-- ===== src/Local.antt =====
-- core/src/llm.rs and core/src/embedding.rs: the providers that need no model, and the configurations.
pub mod Embedding
pub mod Sentences
pub mod Config
pub mod Url
