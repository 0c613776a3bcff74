-- ===== src/Lib.antt =====
-- A model of the workshop server of EasyGas: jobs that install gas equipment in vehicles, their
-- checklists with STOP checkpoints, photo evidence, risks, the customer's signature, and the gate
-- that a job passes to be completed; the templates of checklists; and what stands around the jobs:
-- sessions and login, text messages, and the hash chain of the audit log.
--
-- How the parts meet. A job is created (src/modules/jobs/jobs.service.ts), given a checklist and
-- worked through step by step (src/modules/checklist/execution.service.ts), with photos for each
-- attempt (src/modules/photos/photos.service.ts). A STOP step waits for a decision
-- (src/modules/checklist/stop.service.ts); its rejection links a blocking risk
-- (src/modules/risk/risk.service.ts), scored by the ACTIVE version of the governed matrix
-- (src/modules/risk/risk-policy.service.ts, risk-matrix.ts). The customer signs a digest of the
-- work (src/modules/completion/summary.service.ts), and closing, reopening and quality
-- confirmation (src/modules/jobs/completion.service.ts) run the gate over all of these tables.
-- The checklist comes from the published version of a template
-- (src/modules/checklist/templates.service.ts). A user logs in (src/modules/auth/auth.service.ts) to
-- a family of sessions that rotate (src/modules/auth/session.service.ts); a changed password ends
-- them. One-time passwords wait in an outbox that workers lease (src/sms/outbox.service.ts,
-- src/sms/sms.worker.ts). Every record of the audit log is linked into the chain of its day
-- (src/modules/audit/audit.service.ts, audit-chain.ts), which audit-verify.ts checks page by page.
--
-- Files:
--   Common      tables as lists of rows, Boolean tests, JavaScript text
--   Api         the results and error codes of handlers (src/utils/errors.ts)
--   Rbac        roles, permissions and branch scope (src/rbac/permissions.ts)
--   Risk        the fixed matrix, matrix definitions, their validation and classification;
--               Risk/Doubles the arithmetic of their numbers
--   Store       statuses, rows and the database (migrations/), logAudit
--   RiskPolicy  the versions of the matrix: creation, activation, retirement, assessment
--   Jobs        job-cycle.ts, jobs.service.ts and assignment.service.ts
--   RiskEvents  createRisk, linkStopRejectionRisk, resolveStopRisk, resolveRisk, reviseRisk,
--               overrideRisk, countOpenBlockingRisks
--   Checklist   assignChecklist, completeStep, redoStep; Checklist/Stop the STOP decisions
--   Completion  validateJobCompletion and assertReadyEvidenceObjects; Completion/Summary the
--               signed summary and the snapshot's content, Completion/Close closeJob, reopenJob
--               and confirmQuality, Completion/Sign saveSignature
--   Evidence    uploadStepPhoto
--   Sessions    session.service.ts: families of sessions, rotation, grace, replay; its children the
--               courses of requests (Runs) and what they keep (Family, Caps, Revocation)
--   Auth        auth.service.ts: login, logout, registration, change of password
--   Phone       normalizePhone (src/utils/phone.ts)
--   Outbox      the queue, its leases, delivery and retries, and the cycle of a worker
--   AuditChain  the chain; AuditChain/Canonical the canonical JSON text, the other children the
--               verification (Check, Pages, Report), the append (Append) and changed rows (Tamper)
--   Templates   templates.service.ts; Templates/Runs its handlers as requests
--   System      the handlers as requests to one store, and sequences of them
-- The children of these modules carry the proofs, and System/Tests runs them on a small store.
--
-- A handler is a function from the store to a result: inside a database transaction an error rolls
-- every write back, so an error carries no store. An upload, which commits twice, returns the store
-- on every path. The clock (`now`), the storage's answers, the inspection of an image and SHA-256
-- are arguments. A check that a handler makes before it takes its locks reads a store of its own,
-- `before`, so that anything may have happened in between; what other transactions do while a file
-- is written is a function, `between`. Sessions and the outbox take two clocks, the process's and the
-- database's.
--
-- Recursion is structural but for the loop over the pages of a chain, which has fuel: one page more
-- than the chain has rows is enough (AuditChain/Pages). The digits of a number have as much fuel as
-- the number. The ten halvings of a product below 2^63 round it to 53 bits, 2048 halvings the product
-- of two doubles, and 63 doublings bring a fraction of at least 1/2000 to 53 bits.
--
-- Numbers of requests are doubles, written as a signed mantissa over a power of two. A measured value
-- is stored as its DECIMAL(12, 3) column rounds it. A submitted matrix definition may hold anything;
-- what JavaScript converts a member to is part of the member. Text is the list of its UTF-16 units. The audit records of the store keep who did what to which entity: the
-- chain, its old and new values included, is modelled over a store of its own in AuditChain. Messages
-- of errors, the listings, the detail queries and the timers of the worker are left out, and so are
-- the administration of users, customers, vehicles and branches, the catalog, GPS, evidence
-- reconciliation and rate limits.
pub mod Common
pub mod Api
pub mod Rbac
pub mod Risk
pub mod Store
pub mod RiskPolicy
pub mod Jobs
pub mod RiskEvents
pub mod Checklist
pub mod Completion
pub mod Evidence
pub mod Sessions
pub mod Auth
pub mod Phone
pub mod Outbox
pub mod AuditChain
pub mod Templates
pub mod System
