-- ===== src/Lib.antt =====
-- The middleware library open4go/middle (Go): merchant isolation, authentication of users and of
-- services, callbacks of platforms, plan quotas, and the audit log with its queues.
--
-- Text: Go strings as lists of runes, and the functions of package strings that the program
-- calls. Http: http.Header, gin.Context and the values of the request context. A handler maps a
-- context to `next` (c.Next() is called with the context that it has built) or to `abort` with a
-- status. Config: the settings read through viper, and package net.
--
-- Who a request is for.
--   jwt.go is Auth: the session cookie (check_auth), the second factor (second_validate), and
--   merchant_bind. otp.go is Otp, the secrets of the second factor (Otp.Legacy those of old
--   tokens). user.go is User and Login: its Dump and Load are User.Token; writeIntoHeader is
--   Login.write_into_header, one function for each of its branches, in the order of the source.
--   It asks tenant.go (Tenant) who may switch the merchant, and gateway.go (Gateway) whether the
--   tenant header is to be trusted. tenantguard/tenant.go is TenantGuard: the guards read what
--   write_into_header has written. JWTAuthMiddleware.go is Bearer, rpcauth.go is Rpc, wx_auth.go
--   is WxAuth, callback_auth.go is Callback, cors.go is Cors.
--
-- What the audit log does with it.
--   OperateLogMiddleware of oplog.go and usage_quota.go are Quota: the quota, then the capture
--   of the body (Body), the handlers, and saveOperationLog, which is Row.Save. Its row is
--   Row.Operation: parseOperationFields, withLogIdentity and completeMeta (Row) take the
--   merchant and the action from Oplog, the fields of a body from BodyFields, the service from
--   Classify (oplog_classify.go, with its tables in Classify/Tables), the client from Client
--   (client.go), the address from ClientIp (clientip.go), the device from Device (device.go),
--   the address of the request from Uri (sanitizeURI), and the body from Redact (redactValue,
--   over the decoded documents of Json) and Redact.Shown (RedactJSON). The bodies are stored as
--   CompressAuditBodies of audit_compress.go leaves them: AuditValue normalises and compares
--   snapshots, Diff finds the changed fields, Compress cuts and summarises. oplog/snapshot.go is
--   Snapshot, the document before a write. LoginLogMiddleware of log.go is Row.Login. audit.go
--   is Audit and usage.go is Usage: rows and changes of occupancy, which wait in a Queue, the
--   buffered channel with its loop; Queue.Fifo says what a channel promises. An item whose
--   Publish fails is gone, as in the source. Quota.Noop is
--   oplog_db.go. Audit.Settings is how the two publishers are started, Usage.Sizes the size of
--   an object.
--
-- Each part has its theorems in child modules, and its tests, with every result below at a
-- concrete input, in a child Tests. Fixtures holds the requests and settings of the tests.
--
-- What stands for code that is not in the repository: Auth.JwtLib for golang-jwt, `validate` for
-- totp, Otp.RedisLib (the laws of SET, GET and DEL) and WxAuth.Cache for Redis, Snapshot.Store
-- for Mongo, and Quota.Service for the quota service and the network. Of Go's own packages,
-- Config.Net stands for the addresses of net, ClientIp.NetIp for those of netip, `digest` for
-- MD5, `url_host` for url.Parse, Callback.FormLib for ParseForm, Uri.UrlLib for the queries of
-- net/url, Device.Regexps for the captures of the expressions of device.go, `decode`,
-- Redact.Shown.Printer and Compress.Codec for encoding/json, User.Token.TokenLib for base64 with
-- encoding/json, and in Auth and Otp `load` and `legacy` for the decoding of a login.
--
-- Kafka writes what Queue.receive takes: audit_kafka.go and usage_kafka.go are Kafka.
--
-- Bounds. A queue holds 4096 items, as in the source; its theorems are by induction on the steps
-- of a run, so they hold for every run. Every loop is a recursion on a list or a document, but
-- for diffAuditValue, which goes down two documents at once: its calls are bounded by how deep
-- maps are nested in the two, which is enough, since each call goes one map down (Diff.Depth).
-- Sizes and counts of bytes are `int64`: only absInt64 can wrap, and Usage writes it out.
--
-- A string is valid UTF-8 where it is read; what is cut at a number of bytes (a stored body, a
-- body in RedactJSON) is a list of bytes, and Text.Utf8.runes_of reads these as Go does. A Go
-- map is a list of its keys, run over in that order.
--
-- What is not modelled: log lines, the JSON bodies of responses but for those of
-- callback_auth.go, the nil checks on gin.Context, and the handles of databases and tracing.
pub mod Prelude
pub mod Text
pub mod Http
pub mod Config
pub mod User
pub mod Tenant
pub mod Gateway
pub mod Login
pub mod Cors
pub mod TenantGuard
pub mod Auth
pub mod Rpc
pub mod Bearer
pub mod Classify
pub mod Queue
pub mod Usage
pub mod Json
pub mod Redact
pub mod Snapshot
pub mod Audit
pub mod Oplog
pub mod Body
pub mod BodyFields
pub mod Quota
pub mod Client
pub mod Callback
pub mod WxAuth
pub mod Otp
pub mod ClientIp
pub mod AuditValue
pub mod Diff
pub mod Compress
pub mod Device
pub mod Uri
pub mod Row
pub mod Kafka
pub mod Fixtures
