-- ===== src/Lib.antt =====
-- A model of the core of TRACE, a marketplace for reclaimed building materials, and what it keeps.
--
-- A hub puts a material (a passport) on sale as a lot (a listing) of some size. A buyer orders part of
-- the lot (a transaction); the order holds its share until it is completed, resolved or cancelled, and
-- moves by the steps of its buyer, its seller, a platform admin and time limits. A sweep closes what is
-- overdue. Beside it, buyers ask for the roles that sell, and inspectors grade materials, which makes
-- their fingerprints anew. A worker writes the fingerprints to a chain, and a sweep queues the materials
-- that are not there yet. All of it is rows in one database, which the services of packages/api read and
-- write.
--
-- The parts and their files:
--   Config.antt       packages/core/src/constants/config.ts: statuses, roles, limits.
--   Errors.antt       packages/core/src/errors.ts: the error classes; a promise is a `Result`.
--   Table.antt        a database table as a list of rows with ids, and the queries on it.
--   Store.antt        packages/db/drizzle/schema.ts: the rows, and the database `Db`.
--   Session.antt      packages/api/src/middleware/auth.ts, deployment-profile.ts: `load_session` is
--                     loadSession, `authorize` and `is_request_allowed` are the guards of a route.
--   Login.antt        packages/api/src/modules/auth/login-backoff.ts, auth.service.ts: `login_user`,
--                     `register_user`, `record_failed_login`, `wait_minutes`.
--   Market/           packages/api/src/modules/marketplace/marketplace.service.ts:
--     Lots            orderableQuantity, listingStatusAt, lotStatus, settleLot.
--     Listings        createListing, updateListing, cancelListing, and their input checks in
--                     packages/core/src/validators/listing.schema.ts.
--     Offers          makeOffer.
--     Browse          browseConditions, getListingById.
--     Transitions     TRANSITIONS, mayAct, allowedActions, timedStep.
--     Steps           applyStep, closeIfOverdue, updateTransaction.
--     Sweep           overdueAt, sweepOrderLifecycle.
--     Orders          getTransactionById, listUserTransactions, getOrdersSummary, markOrdersSeen.
--     Routes          marketplace.routes.ts: a request, its guards and its handler (`handle`).
--     Invariant       what holds between requests, after packages/db/scripts/lib/invariants.ts; its
--                     children go through the writes of each operation, and Invariant/Reach runs
--                     requests and sweeps in any order.
--     Progress, Timing, Effects, Quantities, Access, Listed   what single operations do.
--   DataRules         packages/db/scripts/lib/invariants.ts: `check_invariants` is checkInvariants.
--   Access/           packages/api/src/modules/access-request and the schemas of
--                     packages/core/src/validators/access-request.schema.ts: how a buyer asks for a
--                     selling role and an administrator grants it.
--     Slugs           slugifyOrganisationName, and the loop of resolveOrganisationForApproval.
--     Requests        submitAccessRequest, approveAccessRequest, rejectAccessRequest and the others.
--     Views           what an administrator is shown (serializeAccessRequestWithRelations).
--     Routes          access-request.routes.ts: `handle_access` takes a request and its guards.
--     Moves           what each request writes, which Keeps, Closed and Roles go through;
--                     Reach runs them together with the steps of the marketplace.
--   Quality/          packages/api/src/modules/quality: reports of inspections and the grades they set.
--     Anchors         packages/api/src/lib/anchor.ts, packages/db/src/passport-hash.ts.
--     Reports         createQualityReport, disputeReport, hasIndependentInspection, toPublic.
--     Routes          quality.routes.ts, as far as it writes (`handle_quality`).
--     Queue           inspectionConditions, getInspectionSummary.
--     Filing          what each request writes, which Grades and Seals go through; Counts is about an
--                     inspector's report.
--   Passports/        packages/api/src/modules/passport: the materials.
--     Inputs          CreatePassportSchema and UpdatePassportSchema of
--                     packages/core/src/validators/passport.schema.ts.
--     Edits           createPassport, updatePassport, buildInsertValues, buildUpdateValues.
--     Routes          passport.routes.ts, as far as it registers and edits (`handle_passport`).
--     Reading         toPublicPassport, passportListing, getPassportById, verifyPassport,
--                     getPassportVerification, getPassportHistory, getPassportStats; Shown is about the
--                     lot on the page, Privacy about what is left out of it.
--     Writes, Upkeep  what each write of a request carries over; Trust runs these requests together with
--                     those of Quality, Edited is about single edits, Integrity about the check.
--   Anchoring/        packages/api/src/workers/anchor-passport.worker.ts.
--     Chain           the chain as the worker calls it: packages/api/src/lib/chain/types.ts.
--     Registry        packages/contracts/contracts/MaterialRegistry.sol, the calls that the worker makes;
--                     Index and Registered are about its reverse lookup, Taken about a job's calls.
--     Node            a node that runs this contract, as a record of the view and the laws of a chain.
--     Wallets         packages/api/src/lib/wallet.ts; Claims is about jobs that race for a wallet.
--     Ledger          decideAnchorAction, the log of transactions, syncAlreadyAnchored.
--     Jobs            ensureHubRole, repairPassportOwnership and processAnchorJob, on the promises of
--                     Work; Ends, Decided, Confirms, Sends, Current, Submits and Settles go through a
--                     run on such a node, Late through one that finds its fingerprint in the registry.
--     Sweep           processSweepJob with what it calls, and packages/api/src/lib/passport-identifiers.ts;
--                     Marked, Pending and Covers are about what it leaves.
--     Certificate     getPassportCertificate; Certified, Unsealed and Drafts are about it.
--   Web/OrderForm     packages/web/src/lib/order-quantity.ts.
--   Tests/            runs on sample data.
-- A function of the model has its source's name in the spelling of this library. An operation that
-- writes takes the database and returns the one that is left with its result.
--
-- How the code is read:
--   * Ids are numbers and times are milliseconds, both natural. The id of a new row, and the time of a
--     request, are arguments.
--   * One request runs at a time. The code's transactions lock the lot's row, so makeOffer,
--     updateListing, updateTransaction and the sweep take turns on a lot; createListing and
--     cancelListing take no lock, and a race with them is not modelled.
--   * A transaction that throws writes nothing. updateTransaction first closes an overdue order in a
--     transaction of its own, and that stays written where the step is then refused.
--   * A row that a query does not order comes in the table's order; the sweep's limit of 500 rows is
--     kept.
--   * A body is typed: the input checks are the rules on numbers, dates and lengths. The fields of an
--     order's list entry that are read from the material are left out.
--   * Prices and quantities stay below 2 ^ 31 and products below 2 ^ 61 in the model; in the code the
--     product of a price and a quantity is a double, which is exact up to 2 ^ 53 and compared with the
--     largest amount before it is stored.
--   * `quantity - committed` is checked before it is taken, and `committed` is a difference that the
--     invariant keeps natural.
--   * bcrypt is the record `Bcrypt`, an argument. A token is the claims of one that verified. An email
--     is given in lower case.
--   * The marketplace's tables are one record, `Db`; requests for access and reports of inspections
--     have it in a record of their own, and write its users and its materials.
--   * Every loop goes over a list that was read before it, but the one that looks for a free slug: it
--     has two rounds more than there are organisations, which are enough since a round that goes on
--     has met a slug in use, and the slugs that it tries after the first are all different.
--   * A slug is the list of its characters' codes, and `toLowerCase` is written out as far as a to z
--     come of it.
--   * A fingerprint is an argument's value on the canonical document: the argument is the document's text
--     under keccak256. Its columns are a table beside the materials, with a row for each. Whether the
--     chain is simulated is an argument, too.
--   * A JSON value and a number of a `numeric` column stand as their text, and the history of a material
--     is kept newest first.
--   * The chain is a record of its calls over a state of its own type, and the queue one of BullMQ's calls
--     with what BullMQ documents of them; the cipher, the random wallet and the stored image of a
--     public address are arguments. A promise of the worker is a function of its state that leaves what
--     it wrote before it was rejected.
--   * A node takes a call of the registry that the contract accepts, confirms it in time, and lets nobody
--     else call the registry while a job runs. Addresses and hashes are compared as text in lower case.
--   * A job is tried once here: its retries are runs of the same function. The claims of jobs that run
--     at the same time are a list, in the order in which the database takes them.
--
-- Not modelled: searching, the statistics of the marketplace and the lists of an organisation's
-- materials, of materials to inspect and of organisations, which only read; the audit record; the photos
-- of a material and other stored files, which are I/O; the adapters of the chain, the other contracts
-- and calls of the registry, and the rest of the web pages.
-- The other services appear as the step `elsewhere` of Market/Invariant/Reach, which leaves lots and
-- orders alone, and the status of a material that is listed, reserved or sold: packages/api sets the
-- status of a material outside the marketplace only when it registers one, from draft to active.
-- The data rules also allow a sold material to be installed or decommissioned; nothing sets these yet.
pub mod Common
pub mod Table
pub mod Config
pub mod Errors
pub mod Store
pub mod Session
pub mod Login
pub mod Market
pub mod DataRules
pub mod Access
pub mod Anchoring
pub mod Quality
pub mod Passports
pub mod Web
pub mod Tests
