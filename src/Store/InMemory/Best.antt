-- ===== src/Store/InMemory/Best.antt =====
-- What `search` of `InMemoryVectorStore` (core/src/vector_store.rs) leaves out.
use memoria_mcp.Prelude.{List}
use memoria_mcp.Map.{Map}
use memoria_mcp.Float.{Float}
