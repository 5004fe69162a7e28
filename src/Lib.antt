-- ===== src/Lib.antt =====
-- A model of the FG online recording system, with proofs: its inspection records, corrective
-- actions, checklist templates, accounts and offline submissions.
--
-- The system records daily cleaning verifications and freezer truck inspections of a finished goods
-- store. An operator fills a checklist and submits it; a supervisor checks it; a QA executive
-- verifies it, or returns or rejects it; for a truck a loading decision is recommended from the
-- answers and a permitted user records the final one. A failing answer leads to a corrective action,
-- which somebody is assigned, completes, and somebody else verifies. The rules stand in
-- packages/shared/src, which the API and the web application share; the API's services apply them to
-- the database, behind the guards that admit a request. The web application keeps submissions in a
-- queue while a device is offline.
--
-- Files and the code that they model:
--   Prelude            tests on numbers, lists, texts, floating-point numbers and dictionaries
--   Checklist          packages/shared/src/checklist-engine.ts: Items is its data model, Responses
--                      classifyResponseStatus and isFailureResponse, Order flattenItems, Filling
--                      Mark All Acceptable, Validation validateChecklistResponses
--   Records            packages/shared/src/records.ts and inspection-records.ts: isRecordEditable,
--                      resolveDraftDuplicate, computeRecordCounts and the statuses
--   Workflow           packages/shared/src/record-workflow.ts
--   Loading            packages/shared/src/truck-inspection.ts
--   Exec               a handler as a function from a state to an outcome, a value or an exception,
--                      and the state that it leaves
--   Prisma             the database client, an argument of every handler: its delegates as fields of
--                      `Prisma`, their documented behaviour as `PrismaLaws`, which each theorem that
--                      needs it takes as a hypothesis; Prisma/Memory is a client that has it
--   Inspections        apps/api/src/inspection-records: State has the rows of
--                      apps/api/prisma/schema.prisma and the exceptions; Access the private checks;
--                      Mapping the mappers; Detail getById and the lists; Review checkRecord,
--                      verifyRecord, returnRecord, rejectRecord, voidRecord and applyWorkflow;
--                      Answers saveDraft and persistResponses; Submit submit and what its transaction
--                      calls; Decision approveLoadingDecision; Drafts and TruckDrafts the creation of
--                      drafts; History sequences of requests
--   CorrectiveActions  apps/api/src/corrective-actions: the operations of its service; State has the
--                      rows and exceptions, Writes what an operation admits and changes, Invariant
--                      sequences of requests, Closing how an action gets closed
--   Accounts           apps/api/src/auth and apps/api/src/users over one database: State has the rows,
--                      Username packages/shared/src/username.ts, Tokens issueTokens, Login login,
--                      Sessions refresh, logout, changePassword and getCurrentUser, Guards the guards
--                      of auth/guards, Admin the users service; Writes the single writes of these
--                      handlers, as an interface; After what a sequence of requests keeps; History the
--                      sequences, Lockout repeated attempts, Admission what the guards let through
--   Templates          apps/api/src/checklist-templates: Content the nested writes and the mapper,
--                      Service the operations, Sound and Current what their single writes keep, History and
--                      Lifecycle and Numbering what each request keeps, Lasting what lasts under all of them
--   Offline            packages/shared/src/offline-queue.ts; Store and Engine are queue-store.ts and
--                      sync-engine.ts of apps/web/src/lib/offline, Conflicts the engine's
--                      classifyConflict and its early returns; Server the handlers of the API
--                      behind apiFetch of inspection-records/api.ts and a network; Honest what the
--                      engine needs of any such API
--
-- How the model stands to the code. The state of a handler is one table for each collection: `Db` of
-- Inspections, `CaDb`, `AccountDb` or `TemplatesDb`. A `do` block follows the method's statements in
-- their order; a guard is `require`, a `throw` the outcome `err`, and what was written before it
-- stays written, unless a `$transaction` takes it back. A method that is long is cut where the code
-- has a helper or a loop body, under a comment that says so. What zod makes of a request body is
-- `Parsed`, so that each handler has the branch for a body that does not parse. The clock, the time
-- zone functions and the evidence store are the fields of `World`. A number of JavaScript is
-- `Number`; a DateTime is a number of milliseconds.
--
-- In Accounts the join rows between users and roles, and between roles and permissions, are lists in
-- the row of the user or the role, as each is written with it. A refresh token is stored under its
-- hash. bcrypt, JWT and SHA-256 are the functions of `Crypto`, without laws; the time, the random
-- identifier, the salt and the temporary password of a request are its `Moment`, so that a request
-- reads the clock once. `toLowerCase` is that of ASCII. The due date of a corrective action is its
-- text. A version of a checklist template holds its sections; a template is referred to by its code,
-- and a version by the code and its number, which no operation changes; the database's refusal of a
-- second sort order under one parent is written out. The API that the offline queue calls is the
-- parameter `Api`, on a state of the server, and a pass over the queue runs to its end. In
-- Offline/Server it is the model of the inspection records service: each call is delivered, or its
-- request or its answer is lost with some error, which covers the refusals of the guards and the
-- timeout; how the client words an exception, and what the pipes read in a payload, are parameters.
--
-- Bounds. All loops of this code run over lists and are structural recursion, so that no fuel is
-- used and every definition is total. Counts are natural numbers without a bound, as they count list
-- elements; authVersion and the counts of attempts have none either.
--
-- Concurrency. A handler of the model runs without interruption, except that the two halves of
-- submit, before and in its transaction, are separate definitions, for which the second claim of a
-- record is treated. Prisma's transactions are taken as atomic.
--
-- Not modelled: the progress percentages, labels and zod field schemas of the shared package; the
-- list of reinspection candidates and the words of the record header; the filtered lists of users,
-- templates and corrective actions and the access history, which only read; the environment and the
-- cookies of the authentication; the other services of the API (tasks, master data, vehicles,
-- reports, evidence); the pages and components of the web application; scripts and seed data.
pub mod Prelude
pub mod Checklist
pub mod Records
pub mod Workflow
pub mod Loading
pub mod Exec
pub mod Prisma
pub mod Inspections
pub mod CorrectiveActions
pub mod Accounts
pub mod Offline
pub mod Templates
