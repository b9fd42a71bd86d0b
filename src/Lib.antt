-- ===== src/Lib.antt =====
-- Verification of the FSS chassis, an MCP server base with a security middleware, written in Python.
--
-- The program. A request passes the middleware (packages/fss-mcp/src/fss_mcp/middleware/pipeline.py):
-- replay prevention, size limits, authentication, FIT verification, the rate limiter, the sanitizer and
-- the validator, each of which lets it on or ends it with an error. What the checks keep between
-- requests is the rate limiter's buckets, the replay cache, and the keys and key documents of the
-- authentication. Around the middleware the server (packages/fss-mcp/src/fss_mcp/server.py) looks up
-- the tool, reads the context of the request, runs the tool's handler on what the checks let through,
-- and answers with a provenance record, signed where there is a key. Tools come from extensions, and the
-- configuration from a profile, a file and the environment.
--
-- Files.
--   Base: shared names; Base/Dict is Python's dict, Base/Texts its str as code points, Base/Int its
--     int, Base/Results calls that return or raise.
--   Json: the values of json.loads with Python's `==`.
--   RateLimiter: packages/fss-mcp/src/fss_mcp/security/rate_limiter.py. Bucket is `_Bucket`, Limiter is
--     `RateLimiter` with `check`, `_evict_stale` and `reset`, Raising is `check_rate_limit`; Spec is
--     the specification without eviction, View and Refinement relate the two; Waiting is
--     `_retry_after`; Bound, Isolation, Start and Buckets hold the laws. Tokens and time are exact:
--     a token is 60 * 10^9 parts and time counts nanoseconds, so that a rate of n requests a minute
--     adds n parts a tick; the source's floats round, which no theorem covers. The clock never runs
--     backwards.
--   Replay: `_check_replay` and `_evict_seen_timestamps` of the pipeline. Safety and Runs are about
--     sequences of requests, Spellings about the key of the cache.
--   Sanitization: packages/fss-mcp/src/fss_mcp/security/sanitization.py. Characters holds the
--     expressions and the functions on one string, Values is `sanitize_input`; Traversal and Nesting
--     are about `_strip_path_traversal`, Clean, Returned, Outcome and Stripped about the results, Spec
--     describes them without the walk.
--   IoLimits: packages/fss-mcp/src/fss_mcp/security/io_limits.py.
--   Auth: packages/fss-core/src/fss_core/auth.py and `_run_auth` of the pipeline. Providers holds the
--     operations; Scopes and Keys say whom they let in.
--   Fit: packages/fss-core/src/fss_core/fit.py. Verify is `verify_fit`, Verified says which tokens it
--     accepts.
--   Pipeline: the requests of MiddlewarePipeline over one state. Steps holds the steps and the three
--     request methods, as chains of functions from the state to an answer and a state; Process and
--     Admission say what and whom they let through.
--   Validation: packages/fss-mcp/src/fss_mcp/security/validation.py. Checks holds its functions, Spec
--     says what conforms to a schema, Parts, Containers and Valid prove that the errors are none exactly there.
--
--   Integrity: packages/fss-core/src/fss_core/integrity.py. Cai computes and checks identifiers, Keys
--     has the key pair and the loading of a key, Signing the two signatures; Format, KeyStore and Signed
--     are about them. Bytes are numbers below 256; the key directory is two optional files, each
--     with how writing it would go: refused, cut off, without its mode, or done.
--   Provenance: packages/fss-core/src/fss_core/provenance.py and fss_context.py. Context is the record
--     of all context variables, Build the provenance record, Status what it says.
--   Server: packages/fss-mcp/src/fss_mcp/server.py. Registry registers and lists, Meta reads the
--     context of a request and resets it, Codes has `to_dict` of packages/fss-core/src/fss_core/errors.py
--     and the map of error codes, Dispatch is `_dispatch_tool_inner` around the pipeline, Calls the reads
--     of resources and prompts. `World` is the state of the pipeline and the context variables, which the
--     checks read and set. Handlers, Outcomes, Answers, Taxonomy, Tokens and Registered are about them.
--   Config: packages/fss-mcp/src/fss_mcp/config.py and security/profiles.py. Profiles holds the named
--     profiles and the merge, Build the checks, Overrides the environment and the files; Startup makes
--     the pipeline of a configuration and refuses token authentication on stdio. Built, Started, Precedence and Wins are about them.
--   Batch: packages/fss-mcp/src/fss_mcp/extensions/batch.py; Called and Registered are about its
--     handlers and its registrations.
--   Extensions: packages/fss-mcp/src/fss_mcp/extensions/__init__.py, the discovery; Safe says which
--     files it loads.
--
-- Bounds and fuel. `validate_value` recurses on the levels left, which is max_object_depth + 1 - depth
-- and runs out exactly where the code reports the depth. `strip_passes` has the 10 passes of the code.
-- All other recursion is on the data.
--
-- Parameters. `datetime.fromisoformat`, the normalization and the categories of `unicodedata`,
-- `json.dumps` and `json.loads`, `int`, `str.strip`, hashlib, the canonical form of JSON, PEM, Ed25519,
-- PyJWT, `re.fullmatch`, HTTP, the key file, the MCP library's request context, UUIDs and the handlers of
-- tools are arguments of the definitions. Three things are assumed of them where a theorem says so: a
-- hexadecimal digest of SHA-256, SHA-384 or SHA-512 has 64, 96 or 128 lower-case digits
-- (Integrity/Format's GivesHex), a private key that was written as PEM loads as itself
-- (Integrity/KeyStore's LoadsBack), and `.`, `/` and `\` are of neither category Cc nor Cf
-- (Sanitization/Clean's ShowsPunctuation).
--
-- Not modelled. Log, metric and telemetry calls, transports, the entry point and the health check are
-- input and output or calls of libraries. Importing modules and the file system are arguments of the
-- discovery. Error texts are kept as the data that they show; the `str` of an
-- exception, with its random correlation id, is an argument. What a handler does besides answering is
-- left out, and so are values of the configuration that are not of the expected type. Floats that are
-- infinite or NaN do not occur among the values.

pub mod Base
pub mod IoLimits
pub mod Auth
pub mod Fit
pub mod Pipeline
pub mod Integrity
pub mod Provenance
pub mod Server
pub mod Config
pub mod Batch
pub mod Extensions
pub mod Json
pub mod RateLimiter
pub mod Replay
pub mod Sanitization
pub mod Validation
