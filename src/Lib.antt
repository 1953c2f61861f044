-- ===== src/Lib.antt =====
-- openpost: the server that publishes posts to social networks. This library models the parts of
-- its backend that decide what is published, when, how often and for whom.
--
-- Parts, and the files that model them:
-- - Queue: backend/internal/queue/worker.go, the worker. It claims the earliest due row of the table
--   of jobs (processNextJobIfAvailable), runs it (executeJob), and writes its end or its next try
--   (handleLockedJob); processDueJobs first gives back the jobs of workers that died. Queue/Cleanup
--   is the media clean-up job and its scheduling.
-- - Publisher: backend/internal/services/publisher/publisher.go, which the worker calls for the jobs
--   publish_post. Dispatch is HandlePublishJob, Single publishSinglePost and finalizePost, Thread
--   publishThread, Destination publishToDestination, Media the uploads that it needs.
-- - Entitlements: backend/internal/services/entitlements, the limits of plans (service.go) and of
--   subscriptions (subscription.go, in Entitlements/Subscription). The publisher asks it before a
--   post is published and before each write call to a network.
-- - Usage: backend/internal/services/usage/service.go, the monthly counters, which the publisher
--   reads for the limits and increments after them.
-- - RateLimit: backend/internal/services/ratelimit/limiter.go, the limiter of the request handlers.
-- - CliAuth: backend/internal/services/cli_auth/service.go, by which the command line gets a
--   token; CliAuth/Start is StartSession.
-- - OauthState: backend/internal/services/oauthstate/store.go, the states of the OAuth flows.
-- - ApiTokens, Sessions: backend/internal/services/apitokens and sessions, the credentials that are
--   kept in tables; Bearer: backend/internal/api/middleware/auth.go, which asks both of them who a
--   request is from.
-- - Billing: backend/internal/services/billing/service.go. Signature is verifyStandardWebhook, Event
--   the subscription of an event, Webhook the transaction of ProcessPolarWebhook, Catalog the plans
--   and the checkout. The snapshot of limits that it writes is what the entitlements read.
-- - McpOauth: backend/internal/services/mcpoauth/service.go, the codes by which an MCP client gets a
--   token of ApiTokens. Checks has the tests on what a client sends, Codes the creation of codes,
--   Exchange ExchangeCode, Interleaving several exchanges at once.
-- - AccountSaver: backend/internal/services/account_saver/account_saver.go, which saves an account of
--   a network and asks TokenManager for its refresh job; AccountSaver/Slug has the slugs.
-- - NetGuard: backend/internal/netguard/netguard.go, the guard of outgoing connections. Address is
--   IsPublicAddress, Guard the validation of URLs and the dialer.
-- - AccountPicker: cli/internal/accountpicker/accountpicker.go, the accounts that the selectors of
--   the command line name.
-- - TokenManager: backend/internal/services/tokenmanager (manager.go, jobs.go), the tokens of the
--   accounts: the publisher asks it for a token, the worker's refresh jobs force a refresh, and each
--   refresh puts the next job into the table of jobs.
-- - Prelude: what these share. Prelude/Table has the SQL statements on a table as a list of rows.
--
-- How the code is read:
-- - A row of backend/internal/models/models.go is a record with the columns that the modelled code
--   reads or writes; a table is the list of its rows in the order in which the engine scans them.
--   Where a statement has LIMIT 1 and rows tie, the first in that order is taken.
-- - A failed statement is an input (the field `fails`, or the flags of a Tick) and leaves the tables.
--   CURRENT_TIMESTAMP and time.Now() are the clock readings that a call is given.
-- - A time is a number of nanoseconds since Go's zero time, which is 0; an int64 wraps where the code
--   computes with it. The limiter's and the sessions' sums of times stay on all numbers.
-- - The code that is called and is not here (the adapters of the networks, the encryption, the media
--   storage and signer, encoding/json, the calendar of the package time, the hash and the random
--   codes) is a record of functions that the definitions take.
-- - Log lines and contexts are left out.
--
-- Fuel: the loop of processDueJobs takes fuel; the tries that the table of jobs holds bound it,
-- as long as what the handlers insert is not due in the same run. The loop of uniqueSlug takes one
-- try more than there are accounts, since its candidates are different texts.
-- The query for a thread, and the fallback that follows one child at a time, take a depth, a bound
-- on the replies that they follow. The engine, and the loop, stop where a post has no reply.
--
-- Not modelled: the ticker of the worker, and the other services, handlers, adapters and commands.
pub mod Prelude
pub mod Queue
pub mod Publisher
pub mod Entitlements
pub mod Usage
pub mod RateLimit
pub mod CliAuth
pub mod TokenManager
pub mod OauthState
pub mod ApiTokens
pub mod Sessions
pub mod Bearer
pub mod Billing
pub mod McpOauth
pub mod AccountPicker
pub mod NetGuard
pub mod AccountSaver
