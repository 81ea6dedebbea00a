-- ===== src/Lib.antt =====
-- AXmiPusher: the delivery of messages, in the parts that decide what is sent, when and how often.
--
-- A request comes to the message service (internal/service/message.go): it is checked for a
-- duplicate, limited in rate, given a channel and rendered, and leaves a pending row in the message
-- table for each recipient. The database queue (internal/queue/dbqueue.go) claims pending rows in
-- rounds and hands each to a worker (internal/worker/worker.go), which dispatches it through the
-- registry (internal/channel/channel.go), behind a circuit breaker for each tenant and channel, and
-- writes its status and events to the store. Batches (internal/service/batch.go) put many recipients
-- through the same service; payments (internal/service/payment.go) keep the subscriptions.
-- The accounts (internal/service/auth.go) say who a tenant and who an administrator is; the
-- middleware (internal/api/middleware/auth.go) lets a request in by a token or an API key.
--
-- Files and code:
--   Base                 lists, texts, native integers, association lists, sorting; Base/Paging is
--                        the page and size of every list, Base/Keys the keys "tenant:name".
--   Models               internal/models/models.go: states, tasks, templates.
--   Channel/Breaker      internal/channel/breaker.go; its child modules hold the theorems: Machine
--                        and Probes on one circuit, History on sequences of calls, Isolation.
--   Channel/RedisBreaker internal/channel/breaker_redis.go: the Lua scripts as functions on the
--                        fields of a hash; Circuits and Refinement relate them to Channel/Breaker,
--                        Expiry is about the time to live of the key.
--   Channel/Registry     internal/channel/channel.go, over the interface BreakerApi.
--   Store                internal/store/sqlite.go: the tables as lists of rows. Store/Claims and
--                        Store/Leases, with Capped and Ordered for the rows and Recoveries for
--                        ReapStale, are about the claiming and recovery of rows, Store/Query about
--                        the reading side.
--   Queue                internal/queue/dbqueue.go: one round of the poller.
--   Worker               internal/worker/worker.go: Handle, with its retries; Attempts is its loop,
--                        Outcome what it leaves.
--   Service/RateLimit    internal/service/ratelimit.go, in memory (Bucket) and in Redis
--                        (FixedWindow).
--   Service/CodeStore    internal/service/codestore.go, behind the interface OneTime.
--   Service/Template     renderTemplate of internal/service/message.go, on code points.
--   Service/Messages     the rest of internal/service/message.go; Send is the way of a request.
--   Service/Batch        internal/service/batch.go, with Cancel beside the goroutine of a task.
--   Service/Payment      internal/service/payment.go: orders, signatures, notifications,
--                        subscriptions.
--   Service/Templates    internal/service/template.go.
--   Compat               internal/compat/serverchan/serverchan.go, over Service/Messages.
--   Accounts             internal/service/auth.go: users and administrators, two tables of one shape,
--                        so that a method and its twin for administrators are one definition; Keys
--                        are the API keys, Tokens the JWT, Register the accounts that are made with a
--                        code, over OneTime of Service/CodeStore. Calls is the family of all
--                        operations on a table.
--   Api                  internal/api: Auth is internal/api/middleware/auth.go; Sessions and
--                        Account are internal/api/handler/auth.go and admin_auth.go, with Register
--                        in Sessions/SignUp; Admins is internal/api/handler/admin_admins.go, and
--                        Admins/Routes the routes of internal/api/router.go below /api/v1/admin
--                        that write administrators. Users is internal/api/handler/admin.go. Inbox
--                        is internal/api/handler/inbox.go with the sender Channel/Inapp, of
--                        internal/channel/inapp.go; AdminPath is the rotation of
--                        internal/api/handler/admin_settings.go and the prefix that
--                        internal/app/admin_spa.go serves, with RegisterAdminSPA of
--                        internal/app/install.go.
--   Service/Settings     internal/service/settings.go.
--   Config               internal/config/config.go: Loading is the file, the environment and the
--                        default values; AdminPath the path of the administration.
--   Tests                concrete inputs.
--
-- Conventions. A function of the model takes the state and returns the next one. What the program
-- reads from outside is an argument: each reading of the clock, whether the database refuses a
-- statement, whether a reply of Redis is lost before or after the script has run, whether a
-- context ends. Redis and its clients are taken to have one clock. A method that holds a mutex, a
-- Lua script and a transaction are one step each; where two goroutines meet, the order of their
-- statements is an argument too. A map of Go is an association list; the program never depends on
-- the order of one. MD5, float64 amounts, encoding/json, strconv quoting and the senders are
-- parameters; nothing is assumed of them, so that what the comparison of amounts makes of a NaN is
-- not seen. bcrypt, TOTP, SHA-256 and JWT are the record Crypto. Only the theorems about sessions
-- assume anything of it, HasJwt: a token that is verified carries the claims that it was signed
-- with; and that it was handed out, since nobody else has the secret.
--
-- Integers. Counters that grow by one a call are natural numbers without a bound. A product that can
-- wrap around an int64 is taken modulo 2^64: the offset of a page and the duration of a plan. The
-- tokens of the bucket are exact fractions instead of float64.
--
-- Loops are structural: on the list of recipients, rows or code points, or on the number of attempts
-- that are left. Only the text of a number, in Base/Keys, takes fuel: the number and one, which is
-- more than it has digits.
--
-- Not modelled: the handlers of internal/api/handler other than those above, with their routes; the
-- senders (webhook, email, APNs, FCM), which talk to services; database drivers and migration; the
-- rest of the installer; the files of the configuration; and the clients. Decoding of YAML and JSON
-- is a parameter. The lists of batches, of plans and of settings are not modelled either.
pub mod Base
pub mod Channel
pub mod Models
pub mod Store
pub mod Queue
pub mod Worker
pub mod Service
pub mod Config
pub mod Accounts
pub mod Compat
pub mod Api
pub mod Tests
