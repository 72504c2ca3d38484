-- ===== src/Lib.antt =====
-- Verification of the LinuxGSM dashboard. The dashboard is a web server
-- (main.go) whose package backend keeps the users and their sessions, decides which request may
-- act on which game server, and then runs LinuxGSM scripts. A login passes the limiter, the
-- password check and, with two-factor authentication on, a second step; it gives a session whose
-- cookie every later request carries; a request on a server then asks for the decision of
-- authz.go. The files follow that way:
--
-- - Base: names of the libraries, byte texts, Go maps as functions, lists, results.
-- - Ids: names, server and node IDs and shell quoting (backend/security.go,
--   backend/agent_pki.go).
-- - User, Authz: the user record (backend/auth.go); AuthorizeServerAction, ActionPermission,
--   BulkActionPermission (backend/authz.go); ActionAccess and AgentModeAllows
--   (backend/agent_access.go). Authz/Granted states the decision independently of its order of
--   tests, Authz/Actions is about the tables of actions.
-- - Passwords: HashPassword and VerifyPassword (backend/security.go); Passwords/Costs is about the
--   calls of argon2.
-- - Totp: one-time passwords and recovery codes (backend/twofactor.go).
-- - Auth: AuthManager (backend/auth.go, backend/twofactor.go) as a state: users and port in
--   memory, the content of config.json, sessions, login challenges, pending setups. Auth has the
--   sessions, Auth/Accounts the operations on users, Auth/TwoFactor the login in two steps and the
--   second factors, Auth/Startup the first start and the migration of old files. Auth/Requests
--   runs any sequence of these.
-- - Limiter: LoginLimiter (backend/ratelimit.go).
-- - Cron: cron expressions (backend/cron.go) and their validation (backend/schedule.go).
-- - Audit: the audit log (LogAudit, trimAuditLog of backend/auth.go).
-- - Nodes: the controller's registry of paired nodes (backend/agent_nodes.go), with the checks of
--   SignNodeCSR (backend/agent_pki.go). Nodes/Pairing has the operations, Nodes/Runs any sequence
--   of them.
-- - ServerIds: assignStableIDs (backend/serverids.go), which gives discovered servers their IDs.
-- - Web: the requests in main.go: who a request comes from, csrfProtect, requireAuth and
--   requireAdmin; Web/Login has the login handlers, which compose the limiter, AuthManager and the
--   audit log; Web/Routes has handleServer and its table of routes, up to the call
--   of a handler; Web/Visits is about the requests of a session, one after another.
-- - Query: the binary formats of game queries (backend/query.go).
-- - Schedules: the managed lines of a crontab and the scheduler form (backend/schedule.go);
--   Schedules/Jobs and Schedules/Gone say which lines are a server's own.
-- - Cfg: reading and updating LinuxGSM configuration files (backend/lgsmcfg.go).
--
-- An operation is named like the Go method, in snake case, and takes the state first and gives
-- the new state with its result. What the code reads from outside is an argument: the clock in
-- nanoseconds, what the random source returns (`none` is its error), whether writing config.json
-- succeeds, and the order in which a map is ranged over. The packages argon2, sha256, hmac, base64
-- and base32 are the fields of the record Crypto; a theorem that needs more of them than their
-- types takes IsLawful. A Go map is a function to options, and an association list where its size
-- matters. A string is its bytes, and ASCII where its case, white space or control characters or its
-- length in characters count. Numbers are natural numbers; where the code converts to a bounded type the
-- bound is written out. Times before 1970 are left out.
--
-- Loops are structural recursion on the list that the code ranges over; the doubling of a cooldown
-- takes the number of rounds that its counter allows. Fuel is taken by the decimal text of a
-- number, one round more than the number, and by the loop of parseCronField, 200 rounds: its values
-- are at most 59, a step that stays in 64 bits takes them up by at least 1 and one that wraps takes
-- them down by at least 2 in two rounds. The loops that look for a free ID (Base/Fresh) take as many
-- rounds as there are taken IDs, since the IDs that they try differ. A number of Minecraft's
-- protocol takes five rounds, seven of its 32 bits each.
--
-- Not modelled: operations run one at a time, as under the manager's lock, except that a password
-- change checks and commits separately. WriteFileAtomic replaces the file or leaves it, as it
-- documents. The other HTTP handlers, Docker, processes, the agent's connections, proxies,
-- the connections of queries, updates and the crontab command are outside.
pub mod Base
pub mod Ids
pub mod User
pub mod Authz
pub mod Passwords
pub mod Auth
pub mod Totp
pub mod Limiter
pub mod Cron
pub mod Audit
pub mod Cfg
pub mod Nodes
pub mod Query
pub mod Schedules
pub mod ServerIds
pub mod Web
