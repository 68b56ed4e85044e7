-- ===== src/Lib.antt =====
-- memoria: a memory service for language-model agents. Records of text are embedded as vectors, stored,
-- searched within the scope of a user, an agent or a run, and served over HTTP. This library models the
-- engine (core/src), the accounts, checks and handlers of the service (server/src), and the edits of the
-- installer (mcp/src).
--
-- The parts, and the files that model them:
--
-- Map, Float: what stands for `HashMap<String, V>` (an association list, whose order is the order of
-- iteration) and for `f32` and `f64` (a record of the operations that the program uses, a parameter).
--
-- Filter (core/src/filter.rs): `FilterExpr` and `evaluate`; Filter.Parse is `parse_filter_expr` on JSON
-- values; Filter.Meaning reads a truth value off the JSON itself, for comparison.
--
-- Store (core/src/vector_store.rs): the records and the trait `VectorStore`, as a record of operations on
-- a state. Store.Contract states its laws, which the engine relies on; Store.InMemory is
-- `InMemoryVectorStore`. The stores that call databases are not modelled: they stand behind the trait.
--
-- Entity, Llm, Error, Date (core/src/entity.rs, llm.rs, embedding.rs, error.rs, memory.rs): the spans of a
-- text, the prompts, the errors with their conversions, and the calendar date of a clock reading. Other
-- providers are functions, and parameters. Reranker (core/src/reranker.rs): the interface, and scores
-- brought to one scale; Reranker.Overlap is the local reranker and Reranker.Scoring the one that asks a
-- model. Local: the providers without a model, Local.Embedding (embedding.rs) and Local.Sentences (llm.rs),
-- the base URL of Ollama in Local.Url, and the checks of configurations in Local.Config.
--
-- Memory (core/src/memory.rs): the engine. `World` holds what its methods change (store, history, id
-- counter), and `Env` what they use. Memory.Search is `search` with its keyword and entity passes,
-- Memory.Records the methods on one record and on listings, Memory.Add is `add`, Memory.Entities is
-- `list_entities`. The methods are run one after the other: `&self` with a lock around each access of the
-- history. Memory.Checked, Memory.Refused and Memory.Unchanged follow errors through the operations.
--
-- Server.Auth (server/src/auth_store.rs): accounts, API keys and refresh tokens, with the readings of the
-- clock numbered. Server.Crypto (server/src/crypto.rs): PBKDF2, stored passwords and token expiry around
-- the packages' primitives. Server.Bytes, Server.Http and Server.RateLimiter (server/src/main.rs): the
-- comparison in constant time, the authorization of a request, CORS, the limits and the token buckets;
-- Server.RequestLog is server/src/request_log.rs. Server.Http.Handlers: the handlers of accounts and keys;
-- Server.Http.Requests and Server.Http.Memories: those over the engine. The value that serde reads or
-- writes stands for the body.
--
-- Server.Service (server/src/main.rs): what the service keeps between requests and `wrap_handler`, the frame of
-- rate limit and log around every handler; Server.Service.Endpoints is the functions `axum_handle_..` with
-- what each of them saves, and Server.Service.Router the middleware and the routes of `build_router`. The
-- clocks and the address of a request come with it. Server.Http.Configure: the handlers that show the
-- configuration.
--
-- Snapshot (server/src/main.rs; mcp/src/main.rs and cli/src/main.rs write the same files): the JSON files of
-- the records and the history, over a file system that is a parameter; Server.Auth.Snapshot
-- (server/src/auth_store.rs): that of the accounts.
--
-- Mcp.Remote and Mcp.Tools (mcp/src/main.rs): `RemoteClient`, and the tools of `MemoriaMcpServer` over an engine
-- of its own or a remote service, with the check of the secret and the saving after a change. A call is the
-- value that serde makes of its arguments; the fetches of `get_memories`, which run side by side there, are
-- made one after the other. Mcp.Tools.Agreement compares the two, with the numbers in a query by
-- Server.Numerals.
--
-- Mcp (mcp/src/install.rs): Mcp.Clients is the clients and the places of their configuration, Mcp.Json the
-- edits of those in JSON, where reading, printing and comparing JSON are parameters. An object's fields are
-- met as the entries of a map. Mcp.Toml finds the server's tables among the lines of a TOML text and writes
-- them, and Mcp.Toml.Edits is `upsert_toml` and `remove_toml`.
--
-- Numbers: `usize` has 64 bits, and the id counters wrap at 2 ^ 64; `u8` exclusive and inclusive or are
-- taken bit by bit; the hash of Local.Embedding wraps at 2 ^ 32 and its index at 2 ^ 8. The loop of
-- `pbkdf2_hmac_sha256` takes as fuel the bytes wanted: a round adds one at least; `decimal` takes the
-- number itself, which each division by ten makes smaller. Every other loop is structural.
--
-- Not modelled: the database, network and model providers; what axum does to match a path, and the JSON-RPC
-- transport; the choice of providers at the start of the programs, file input and output, and the command line
-- (cli/src), which are glue around these parts; and of the installer, the run over all clients.
pub mod Prelude
pub mod Map
pub mod Float
pub mod Filter
pub mod Store
pub mod Entity
pub mod Llm
pub mod Error
pub mod Date
pub mod Reranker
pub mod Local
pub mod Snapshot
pub mod Mcp
pub mod Memory
pub mod Server
pub mod Tests
