-- ===== src/Lib.antt =====
-- A model of the user API: accounts, authentication, sessions, password and email changes.
--
-- The parts. A request reaches a method of a service (src/auth/auth.service.ts,
-- src/user/service/user.service.ts), which reads and writes the users collection through
-- src/user/repository/user.repository.ts, groups writes with src/common/utils/transaction.ts, emits
-- events for the mailer and the cache, and throws errors of src/common/errors/error-kind.ts. Refresh
-- tokens are revoked by an epoch in the user document and by a denylist of token ids
-- (src/session/session-revocation.service.ts).
--
-- The files.
--   Errors: the registry of src/common/errors/error-kind.ts. Errors/Codes is about its codes.
--   Exec: methods that read and write a state and may throw. Exec/Inversion is about those that
--   return.
--   Users: the document of src/user/entities/user.entity.ts, and the partial documents of updates.
--   Env: what comes from outside: the collection and its driver, Redis, bcrypt, SHA-256,
--   `jsonwebtoken`, random values, as records of operations with their documented behaviour.
--   World: the state of a request, events, and `runInTransaction`. World/Updates, World/Runs and
--   World/Epochs have what methods do to the users: one document mapped, or no epoch lowered and no
--   code of an email change touched.
--   Users/Repository: src/user/repository/user.repository.ts.
--   Users/Service: the writes of src/user/service/user.service.ts; Users/Service/EmailCode has its
--   email change and src/user/service/email-change-code.ts.
--   Auth: src/auth/auth.service.ts, in Auth/Access (register, login), Auth/Recovery
--   (forgotPassword, resetPassword, verifyEmail, resendVerification), Auth/Addresses
--   (confirmEmailChange, revertEmailChange) and Auth/Tokens (refreshToken, logout, logoutAll, with
--   src/session/session-revocation.service.ts). Auth/Sessions has the requests as steps of the
--   system, with Auth/Sessions/Revocation and Auth/Sessions/Logout about tokens and
--   Auth/Sessions/Codes about email-change codes; Auth/Current has validateUser behind src/auth/strategies/jwt.strategy.ts. The other
--   modules below are named for what they are about.
--   Roles: src/rbac/entities/ and the merge of src/rbac/services/role.service.ts; Roles/Service has
--   that service and the lookups of src/rbac/services/permission.service.ts, Roles/Assignable the
--   check of src/user/service/user.service.ts on the permissions that are assigned, Roles/Lookup the
--   other cached lookups. Pages: src/rbac/rbac-pagination.ts and
--   src/common/dto/paginated-response.dto.ts. Auth/Guards has
--   src/auth/guards/permissions.guard.ts and roles.guard.ts.
--   Csv: src/common/utils/csv.ts. Csv/Reader is a reader after RFC 4180.
--   Password: src/common/validators/password-strength.validator.ts; Password/Strength has its rules.
--   Redis: the client library, and src/config/redis/redis.service.ts.
--   Cache: src/config/cache/cache.service.ts. Cache/Cells says what Redis holds of a key,
--   Cache/Refines has the runs, Cache/Sweep the timer, Cache/Rounds the deletion by pattern.
--   Parameters: the registry and the definitions of src/config/parameters/, with Parameters/Store
--   (parameter.store.ts) and Parameters/Service (parameter.service.ts). Parameters/Memory and
--   Parameters/Batch are about reads, Parameters/Requests and Parameters/Refusals about runs of
--   requests.
--   Users/Listing: the lists, the export and their filter, from src/user/repository/user.repository.ts
--   and src/user/service/user.service.ts; Users/Search has src/common/utils/regex.ts, Users/Metrics
--   the metrics.
--   Email: src/email/entities/. Email/Catalog has the default templates, Email/Templates,
--   Email/Substitution and Email/Seeding have src/email/service/email-template.service.ts over
--   src/email/repository/, Email/Sending has src/email/service/email.service.ts, Email/Listener
--   src/email/listeners/email.listener.ts.
--   I18n: the trees of src/common/i18n/i18n.service.ts, loaded in I18n/Loading; I18n/Merge and
--   I18n/Stored are about what is found in them. I18n/Language has i18n.middleware.ts and
--   request-lang.helper.ts of that folder.
--   Tests: a small memory in the place of the outside, runs on it, and the theorems applied there.
--
-- The names are those of the source in snake case: `resetPassword` is `reset_password`. The rest of
-- a method after its guards is a definition of its own (`reset_found`), and so is the callback that
-- it gives to `runInTransaction` (`write_reset`).
--
-- How the source is read. A date is its number of milliseconds; a field that is missing or null is
-- `none`, and so is an empty text where the code tests a text for truth. `Date.now()` does not move
-- during a request. A write may fail (`none`), which is an error that is not a `DomainError`; reads
-- do not fail. A transaction works on a snapshot that its first write with the session makes and
-- that is committed at the end; writes without the session go to the collection at once. The
-- retries of the driver are not modelled. `decimal` has fuel for the six digits of a number below
-- 10 ^ 6; the loops over SCAN have fuel for their rounds, and the server says how many it takes at
-- most to end (`rounds_left`). Reads that are started together run one after the other. Texts that
-- are searched are lists of code units. Requests are served one after the other: two requests do not
-- interleave. Tokens are opaque values of the library that signs and verifies them.
--
-- What is not modelled: the files of translations, the providers of mail, audit records, controllers
-- and request validation, and the root user of the start. Apart from that start, they read what is
-- modelled here or are reached by its events, and do not write to the users.
pub mod Prelude
pub mod Errors
pub mod Exec
pub mod Users
pub mod Env
pub mod World
pub mod Auth
pub mod Roles
pub mod Pages
pub mod Csv
pub mod Password
pub mod Redis
pub mod Parameters
pub mod Cache
pub mod Email
pub mod I18n
pub mod Tests
