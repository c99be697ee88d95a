-- ===== src/Lib.antt =====
-- A model of the backend of tunnelgate: an engine that serves mock responses from API specs and
-- proxies requests to a real server.
--
-- Parts, and the files that model them. Paths are from the root of the repository; `f` of the code
-- is `f` in snake case here.
--   Text, Json: Go strings as lists of bytes, with the functions of `strings` that the code calls,
--     and the values of encoding/json.
--   MockApi.Types: backend/internal/features/api-specs/types.go.
--   MockApi.Routes: route paths, in backend/internal/features/api-specs/service.go
--     (ResolveTemplateVariables, RoutePathsMatch, WildcardRouteParamKeys).
--   MockApi.Validation: backend/internal/features/api-specs/validation.go.
--   MockApi.Examples: mergeResponseExamples and normalizeResponseExamples of service.go.
--   MockApi.Directory: directorySegments, normalizeDirectoryPath, isDescendant, uniqueTrimmed of
--     service.go.
--   MockApi.Lookup: findRoute, FindActiveMock and FindRoute of service.go, on FindByMethod of
--     repository.go.
--   MockApi.Store, MockApi.Save: backend/internal/features/api-specs/repository.go. The tables are
--     a record of rows; an SQL statement is a function on it.
--   Proxy.Config: the types of backend/internal/features/config/proxyconfig/service.go.
--   Proxy.RateLimit, Proxy.Security, Proxy.Headers, Proxy.Preview, Proxy.Forward, Proxy.Handler:
--     backend/internal/features/proxy/handler.go. `middleware` gives the state of the limiter and the
--     list of what a request made the handler do. It asks the record `Services` of Proxy.Services.
--   AuditLog: backend/internal/features/audit-log/service.go and types.go. AuditLog.Log has the
--     tables and the operations on them.
--   Sanitize: backend/internal/sanitize/sanitize.go.
--   Postman: backend/internal/postman/parser.go, with its comments, bodies, paths and the walk over
--     a collection in the modules of those names.
--   OpenApi: backend/internal/features/api-specs/spec_transform.go, from the decoded spec to the
--     definitions (parseOpenAPISpec), and the conversion of route paths back.
--   Statuses: what the parsers of Postman and of OpenApi share.
--   Proxy.Settings: backend/internal/features/config/proxyconfig/service.go on UpsertKeyValue of
--     backend/internal/database/database.go.
--   Realtime: backend/internal/features/realtime/hub.go, each step of a goroutine on its own.
-- `middleware` uses the limiter, the validation and the headers; its `find_route` and
-- `find_active_mock` stand for the lookups, and Proxy.Handler.Composed puts that of MockApi.Lookup
-- in their place.
--
-- Loops are structural recursion on lists, and take no fuel, with two exceptions. normalizePath
-- calls itself, and two calls are enough. sampleForSchema takes one unit for each call of it that is
-- open, and some number is enough for a schema without an infinite chain of references; where there
-- is such a chain the code need not return. A count or a time is a natural number and a limit that
-- may be negative an integer, without a bound: none comes near 2^63.
-- Times, generated ids, the JSON codecs, regular expressions and the HTTP client are parameters.
-- Maps are functions or lists in the order of one walk over them.
--
-- Not modelled: the drivers of the database and its schema, the wiring of the application, the
-- dependency container and the plugin loader, the MCP server, the handlers that decode requests and
-- replay logged calls, the export of specs, environment variables, feature flags and generated ids;
-- the rules that rewrite headers and the building of target URLs are inside the HTTP client of the
-- model.
mod Prelude
pub mod AuditLog
pub mod Sanitize
pub mod OpenApi
pub mod Postman
pub mod Realtime
pub mod Text
pub mod Statuses
pub mod Json
pub mod MockApi
pub mod Proxy
