-- ===== src/Lib.antt =====
-- Verification of quackapi, a DuckDB extension that serves HTTP routes declared in SQL.
--
-- The program. QuackapiState (src/quackapi_registry.cpp, src/include/quackapi_state.hpp) holds what
-- the DDL registers: routes, streams, groups, schemes and API keys, queues, policies, GraphQL
-- mounts; and the running servers. Each group of members has one mutex.
-- QuackapiHttpServer::HandleRequest (src/quackapi_server.cpp) reads the published routes and
-- streams, chooses a handler, checks credentials (src/quackapi_auth.cpp) and the rate limit, and
-- runs the handler's SQL. An httplib hook, SetRequestPayloadLimit, bounds the body before it is
-- read.
--
-- The files.
--   Base, Keyed, Text: shared definitions: tests, lists, counts, integers, results, vectors of
--     entries with a key, and a C++ string as the list of its bytes.
--   Strings, Crypto: the functions of DuckDB's StringUtil and of mbedtls as parameters, with the
--     laws that the sources rely on, and QuackapiConstantTimeEquals.
--   Types: the structs and enums of src/include/quackapi_state.hpp, with their fields.
--   Registry: src/quackapi_registry.cpp. Routes, Streams, Named (groups and queues), Auths,
--     Policies, Graphql and Servers each have a record of the members under one mutex and a
--     function for each method, from a state to a result and a state. A method that throws returns
--     its error and the state it leaves.
--   RateLimit: AllowRateLimit and ClearRouteRateLimit (src/quackapi_server.cpp). The clock is an
--     argument.
--   Router: SplitPath, MatchPattern and the helpers of src/quackapi_server.cpp around them.
--   Dispatch: the part of HandleRequest from the search of the routes to the answer of a path or
--     method that nothing serves, as one function into a Decision (Decide); the built-in endpoints
--     before it, with the whole choice (BuiltIn); and SetRequestPayloadLimit (Limit).
--   Middleware: src/quackapi_middleware.cpp. The DDL (Parse), the registry, the columns, rows and
--     headers of a hook's result (Columns, Rows, Headers, Results) and ExecuteQuackapiMiddleware
--     (Execute), with QuackapiRemainingTimeoutMillis of src/quackapi_limits.cpp.
--   Serve: HandleRequest from the credentials of a matched route to its handler (Admit) and from
--     there to the end of the response (Finish), with PairsToJsonObject. The binding, the run and
--     the printing of the handler are a parameter.
--   Telemetry: what src/quackapi_server.cpp logs of a request: SanitizeClientRequestId and
--     MakeTraceContext (Trace), RedactedHeaders and RedactRawQuery (Redaction).
--   HttpFetch: the connection pool of src/quackapi_http_fetch.cpp: PoolHost, the two functions that
--     take a client and give it back, PoolStats and ResetPool.
--   Validation: src/quackapi_validation.cpp. JsonReader (Strings, Reader), the projections of a
--     json_transform declaration (Transform) and the locations and the body of a validation error
--     (Pointer).
--   Auth: ExtractBearer, VerifyJwtHs256, ParseJsonObjectClaims, VerifyAuthScheme and CheckAuth of
--     src/quackapi_auth.cpp, and RateLimitClientKey of src/quackapi_server.cpp.
--   Util: QuackapiJsonEscape of src/quackapi_util.cpp.
--   Ddl: QuackapiTrim and the options of CREATE ROUTE, CREATE GROUP and CREATE QUEUE that are
--     parsed by hand in src/quackapi_ddl.cpp and src/quackapi_queue.cpp.
--   Quote: SqlQuote of src/quackapi_queue.cpp and CsvEscapeField of src/quackapi_server.cpp.
--   Tests: runs on concrete inputs.
--
-- How they interact. Registry.Routes clears the counters of RateLimit; Dispatch reads the lists
-- that Registry publishes and Router's matcher; Auth reads Registry.Auths and Crypto; a route's
-- `require_auth` names a scheme of Registry.Auths. Serve runs Auth, RateLimit and Middleware one
-- after the other on a request, and Middleware finds its hooks by the group of the route.
--
-- Bounds and fuel. Recursion is structural, but for these functions on fuel: `decimal` runs on the
-- number itself, which has no more digits; `strip_slashes` on the length of the path, which
-- shortens in every round; `pad` on three, since a length is at most three short of a multiple of
-- four; and the readers of JSON (`string_from`, `parse_value`, `comma_items`) on the length of the
-- text and one more, as each call leaves a shorter text. Sizes and counts are natural numbers; the
-- fields of a route are those that its DDL admits, none negative.
--
-- Parameters. DuckDB's values are a type parameter. Its JSON functions, its StringUtil and mbedtls
-- are records of functions, whose laws are witnessed by Strings/Ascii and Crypto/Plain. A statement
-- that is prepared, run and fetched, and the rewriting of SQL by policies, are the record Database
-- of Middleware/Execute, and the reading of a value is the record Values. Telemetry takes
-- StringUtil::Contains, Split and Trim, and httplib's decode_query_component.
--
-- Not modelled: sockets, TLS, WebSocket frames and static files, which httplib serves without
-- HandleRequest, the answers of the built-in endpoints, the grammars of the DDL but that of
-- middleware, the rewriting of SQL by policies (src/quackapi_policy.cpp), which walks DuckDB's
-- syntax trees, GraphQL execution, queue delivery, the transfers and formats of the HTTP client, and
-- OpenAPI.
pub mod Base
pub mod Keyed
pub mod Text
pub mod Strings
pub mod RateLimit
pub mod Crypto
pub mod Types
pub mod Registry
pub mod Router
pub mod Dispatch
pub mod Util
pub mod Quote
pub mod Ddl
pub mod Auth
pub mod Middleware
pub mod Validation
pub mod HttpFetch
pub mod Serve
pub mod Telemetry
pub mod Tests
