-- ===== src/Lib.antt =====
-- Radar IA watches feeds on artificial intelligence, groups their articles into folders, has a local
-- model analyse each folder, and announces the folders that deserve it on Discord. This library
-- models six parts of it: the addresses that feeds may be fetched from (packages/collector/src), the
-- folder that an article belongs to (packages/shared/src), the backend's scores and decisions on a
-- folder (packages/analysis/src), the publication of a folder on Discord (packages/database/src), the
-- locks that let one process at a time run the pipeline and the model, with the log of
-- administrative operations (packages/database/src), and the scheduler of the pipeline's cycles
-- (apps/worker/src).
--
-- How the parts meet. The worker's scheduler starts a cycle, which runs under the pipeline's lock. The
-- collector fetches a feed from an address that resolveSafeDestination allows. The matching engine
-- (createMatchingEngine) compares each new article with the open folders and proposes a new folder,
-- an enrichment, a duplicate or nothing. evaluateEligibility says whether the folder may be
-- analysed again; before an analysis a process takes the inference lock. The analysis scores a proposal
-- (computeBackendScoring), decides what becomes of the folder (decidePublication) and picks a channel
-- (mapChannelSalonHint). The decision goes to the publication orchestrator, whose `process` runs the
-- announcement (runPublish), an addition to the folder's thread (runEnrich) or nothing; `resume` makes
-- the thread that is still missing. The orchestrator reserves each operation in the repository, takes
-- a lease on the reserved attempt, calls Discord, and records what came of it.
--
-- Files and code:
--   Prelude            names of the libraries, Boolean tests, lists, texts, sorting.
--   Analysis.Types     the closed sets of analysis-proposal-types.ts and analysis-service-types.ts.
--   Analysis.Scoring   analysis-scoring.ts; .Bounds and .Best hold its laws.
--   Analysis.Decision  analysis-decision.ts; .Laws holds its laws.
--   Analysis.Eligibility  analysis-eligibility.ts; .Triggered ties it to the matching.
--   Analysis.Trigger   how a result of the matching becomes the trigger of an analysis
--                      (matchingResultToAnalysisInput and resolveTriggerEnrichmentType of
--                      packages/database/src).
--   Matching.Types, Matching.Runtime  the data of matching-types.ts and matching-thresholds.ts, and what
--                      the code uses of the JavaScript runtime.
--   Matching.Text      normalized labels and canonical URLs (matching-signals.ts); .Normal holds laws.
--   Matching.Signals   the fingerprint and the facts of an article (matching-signals.ts).
--   Matching.Compare   compareFingerprints: what it finds; .Verdict the signals and the confidence,
--                      .Result the whole; .Self, .Novel, .Natures and .Verdict.Laws hold laws.
--   Matching.Report, Matching.Engine  matching-engine.ts; .Candidates, .Create, .Chosen, .Again
--                      and .Enriched hold the laws of the decision.
--   Publication.Types  publication-types.ts and the enums it exports from the database schema.
--   Publication.Exec   asynchronous methods: a result and a new world. A throw keeps what was
--                      written before, except inside `transaction` (prisma.$transaction).
--   Publication.World  the tables, the clock and the Discord calls made so far, with the queries.
--   Publication.Repository  publication-repository.ts: the shared checks; .Reserve (reservePublish,
--                      reserveOperation, getOrCreateFolderPublication), .Record (the four record
--                      methods), .Lease (claimExecution, clearExecutionLease).
--   Publication.Outcome     publication-orchestration-types.ts and the orchestrator's options.
--   Publication.Orchestrator  publication-orchestrator.ts: the helpers; .Thread (completeThread),
--                      .Publish (runPublish), .Enrich (ensureThreadForEnrich, runEnrich), .Process
--                      (process, resume, and runs of several calls). A function after_x is the code
--                      behind the `await` of x.
--   Publication.Hoare  rules for methods; Publication.Tables: laws of the tables.
--   Publication.Once   the invariant that ties a folder's publication, its publish attempts and the
--                      messages sent, with a module per operation and flow; .AtMostOnce has
--                      the results on runs.
--   Publication.Idle, .Exclusion  calls without effect, and the execution lease.
--   Locks.Inference    inference-lock-repository.ts: the row, tryAcquire, release, and sequences of
--                      calls; .Held holds its laws.
--   Locks.Pipeline     administration-repository.ts: the pipeline's lock and its runs (tryAcquire,
--                      heartbeat, release), and sequences of calls; .Runs, .Numbers, .Invariant and
--                      .Kept hold its laws.
--   Locks.Audit        administration-repository.ts: the log of administrative operations; .Lists has
--                      the operations that read, .Filters, .Known and .Order hold their laws.
--   Locks.Lease        what a lock promises, and what it is to implement it; Locks.Refinement reads
--                      both locks as such.
--   Worker.Scheduler   scheduler.ts as steps between awaits; .Steps the relation of steps, .Invariant,
--                      .Stopped and .OneShot its laws.
--   Collector.Ssrf     ssrf.ts: IPv4 addresses; .Ipv6, and .Destination (resolveSafeDestination);
--                      .Address, .Networks and .Safe hold the laws.
--   Publication.Scenarios, Locks.Traces, the Examples modules  runs on concrete data.
--
-- Numbers. Scores are integers from 0 to 100, as the proposal's schema demands. The multipliers of the
-- tiers are written in hundredths; on that range the quotient is Math.floor of the double product and
-- the tenths of the composite never end in a half, so no rounding of doubles is left out. Attempts'
-- ids, which the database draws at random, are numbers from a counter. Times are milliseconds. Lengths
-- of texts count characters; JavaScript counts UTF-16 units, which differ outside the basic plane.
--
-- What stands outside the code is a parameter: the record Options holds Discord's answer to each call
-- given the calls before, whether Discord carries out a call that it answers with an error (the bot's
-- adapter turns timeouts into errors), the time a call takes, which writes of a flow meet a database
-- outage, the channel of a hint, and the content builders, which throw nothing but
-- PublicationContentError.
-- Matching.Runtime and Network (Collector.Ssrf.Destination) hold what is used of the JavaScript
-- runtime and of the DNS. Nothing else is assumed of them but where a theorem names it; that a
-- guild's id is not blank is what createPublicationOrchestrator checks. No loop of the modelled code
-- needs fuel: all recursion is on lists and texts.
--
-- A run (Publication.Orchestrator.Process) gives each call its own Options, so its calls come from
-- processes of different holders and settings, one after the other; folders do not change during it,
-- and reads meet no outage. The body of a transaction writes through `tx` alone and lets no time pass,
-- so a rollback restores all of the world. Dates are not before 1970, and URLs are given as texts.
--
-- Not modelled: logging, timestamps that no decision reads, and durationMs; the repository's list
-- queries (listRetryableAttempts and others), which write nothing; two transactions at once, so the
-- race behind getOrCreateFolderPublication's unique index; the regular expressions of the matching,
-- which Matching.Runtime holds as functions, and its Unicode tables. The persistence of matches, the
-- pipeline's orchestration, the analysis's but for its trigger, the rest of the collector, the rest of
-- the worker, the bot and the other repositories are not modelled.
pub mod Prelude
pub mod Analysis
pub mod Publication
pub mod Locks
pub mod Matching
pub mod Worker
pub mod Collector
