-- ===== src/Lib.antt =====
-- Majordomo Gateway: a reverse proxy for LLM providers, which authenticates a request by an API key,
-- finds the provider that it is for or routes it to one, forwards it, and logs the tokens and their
-- cost.
--
-- The parts, and the files that model them:
--   * Pricing (internal/pricing/service.go): the price maps and the routing catalog, which a reload
--     builds from the catalog file and a remote feed. Types has the records; Suffix stripDateSuffix;
--     Resolve resolve, Price and Candidates; Overlay overlayCatalog; Catalog parseCatalog; Reload
--     fetchRemote, reload, loadAliases, NewService and refreshLoop; Cost Calculate.
--   * Provider (internal/provider): Names and Detect the constants and Detect of provider.go, Paths its
--     path functions, Frames the walk over a Bedrock event stream, Usage the four response parsers, Parser
--     the choice among them, Translate the two translations of translator.go.
--   * Proxy (internal/proxy): Health getHealth and isHealthy, Select selectByCost, Route Route, Rewrite
--     RewriteRoutedRequest and OverrideModel, Region resolveBedrockRegion, Headers extractHeaders,
--     extractCustomMetadata, resolveDataPolicy and applyRunTracing, Spans internal/spanid, Forward the
--     copying of headers of upstream.go and the tests of compression.go, Exchange and Handler the
--     stages of ServeHTTP up to the call of the upstream, Respond those behind it.
--   * Auth (internal/auth/resolver.go): ResolveAPIKey with its cache.
--   * Keys: internal/repositories/api_keys.go, internal/auth/keygen.go and internal/services/key_service.go
--     with the handlers of internal/controllers/keys_controller.go, over the rows of api_keys.
--   * Credentials: internal/secrets/aes.go, internal/repositories/provider_keys.go and
--     internal/services/provider_key_service.go with the handlers of
--     internal/controllers/provider_keys_controller.go, and resolveRoutedCredential of
--     internal/proxy/handler.go.
--   * Deprecated (internal/deprecated/service.go): the map of deprecated models.
--   * Metadata (internal/repositories): the counts of hll_manager.go and the cache of
--     active_keys_cache.go; Metadata.Batches the backfill and the cleanup of metadata_keys.go,
--     Metadata.Activation its other statements, with internal/services/metadata_service.go and
--     internal/controllers/metadata_controller.go.
--   * Logs (internal/requestlog): Types RequestLog, Record logRequest and archiveBodies of
--     internal/proxy/handler.go with the keys of internal/storage/storage.go, Writer the channel of
--     writer.go, its two sides and Close as steps, and writeLog.
--   * Usage (internal/repositories/usage.go): Filter the WHERE clauses, Aggregate and Groups what the
--     statements use of SQL, Reports the statements but those on runs, Runs ListRuns, Tree GetRunTree,
--     Health GetEndpointHealth of internal/repositories/endpoint_health.go. Service is
--     internal/services/usage_service.go and the statuses of internal/controllers/usage_controller.go.
-- The router asks the pricing service for candidates and prices; the handler takes its data policy
-- from the headers, and sends what Rewrite makes of the body. What it logs goes through the writer into
-- the rows that the usage statements read, and that tell the router how healthy an endpoint is.
--
-- Conventions. A string is its bytes. A Go map is an association list, and a range loop visits its
-- entries in the list's order, so a theorem over all lists is one over all orders. A Go int is its
-- 64-bit pattern. A float64 is a value of an interface without laws. Times are numbers of a clock. Case
-- folding and white space are those of ASCII. sort.Slice is a stable insertion sort here; Go's leaves
-- open how equal elements are ordered. ORDER BY is the same sort, and in the lists of requests it sorts
-- the rows in the order in which the execution meets them, which is an argument. A statement is a
-- function of the rows of llm_requests that it finds; SUM is in 64 bits. A pointer to a node of a run
-- tree is the place at which the node was made.
--
-- Fuel. The walk over frames takes one more than the length of the body, which is enough, since
-- every frame has at least sixteen bytes. The roll-up of a run tree takes the number of nodes,
-- which is enough, since a child is made after its parent. The batches take more rounds than there
-- are rows to change. All other loops are structural.
--
-- Given as arguments: JSON decoding and encoding, file and network reads, the database, the clock,
-- the random source, the LRU cache, the hash of a key, the UUID of a span, the day of a time as
-- text, AVG and PERCENTILE_CONT of the database, the parsers of responses in Logs, the cipher and
-- the decoders of Credentials, with the laws that their documentation states.
--
-- Not modelled: ListMetadataKeys, the SDKs of the object storage, the configuration, the servers
-- and commands, which mostly call other code. The locks are not modelled either; Auth has the
-- steps of concurrent requests as a relation, and Metadata has the look at the cache of active keys as
-- its two locked parts, too.
pub mod Base
pub mod Models
pub mod Pricing
pub mod Provider
pub mod Proxy
pub mod Auth
pub mod Credentials
pub mod Keys
pub mod Deprecated
pub mod Metadata
pub mod Tests
pub mod Usage
pub mod Logs
