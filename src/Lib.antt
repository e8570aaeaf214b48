-- ===== src/Lib.antt =====
-- Settlement operations: the financial core of a payment reconciliation service.
--
-- The program reads the canonical records of a payment (payment, fees, taxes, refunds, adjustments,
-- settlements, settlement lines, bank credits) into a unit, reconciles it by ten deterministic
-- checks, opens a case for each unit that fails, and lets a case be investigated. A proposal about a
-- case takes effect only as far as the terminal verifier, which reads no model output but the
-- proposal itself, finds it supported; the case then moves through a state machine in which a human
-- approves and the system stages. The parts and the files that model them:
--
--   Base            integers, results, lists and tests that the parts share
--   Money           packages/domain/src/money: money.ts and currency.ts in Money, the breakdown in
--                   Money/Breakdown, the codec in Money/Codec
--   Policy          packages/domain/src/policy: Rounding, FeeSchedule, Tolerances, and
--                   settlement-cycle.ts in Calendar (days and business days) and Settlement (windows)
--   Records         packages/domain/src/records and packages/domain/src/lineage (Records/Lineage)
--   Cause           packages/domain/src/cause
--   Case            packages/domain/src/case: State, Transitions (the table and its tests) and
--                   Aggregate (applyTransition); Aggregate/Runs has the histories of a case
--   Reconciliation  packages/domain/src/reconciliation: Duplicates, Unit, ExpectedNet, Checks,
--                   BankCredit (checkBankCredit) and Matcher (reconcileUnit)
--   Verifier        packages/verification/src/verifier.ts: Support has the rule of each cause,
--                   Verifier itself has verify
--   Workflow        packages/application/src/auth/request-context.ts in Workflow itself; the guarded
--                   transition of packages/persistence/src/repositories/workflow-repositories.ts in
--                   Workflow/Repository; packages/workflow/src/approval.ts in Workflow/Approval;
--                   packages/application/src/use-cases/case-workflow.ts in Workflow/Human
--                   (Repository/Refinement relates it to the aggregate);
--                   packages/workflow/src/investigation.ts and the investigation repository in
--                   Workflow/Investigation, packages/workflow/src/ai-investigation.ts in
--                   Workflow/AiInvestigation;
--                   packages/application/src/use-cases/run-reconciliation.ts and createResidual of
--                   packages/persistence/src/repositories/case-repository.ts in Workflow/Reconcile
--   Ingestion       packages/application/src/ingestion: contracts.ts in Ingestion itself and
--                   normalizer.ts in Ingestion/Normalizer;
--                   packages/application/src/use-cases/submit-import.ts and
--                   packages/persistence/src/repositories/import-repository.ts in Ingestion/Import
--   Tools           packages/tools/src: the contracts in Tools and Tools/Evidence (results), the
--                   handlers in Tools/Lookups, Tools/Arithmetic and Tools/Handlers, the dispatch in
--                   Tools/Registry
--   Agent           packages/agent/src: budgets, replies and results in Agent, the loop of
--                   investigation-loop.ts in Agent/Loop, that of investigation-loop-v2.ts in
--                   Agent/LoopV2
--   Jobs            apps/worker/src/jobs/job-runner.ts over the table of jobs: Rows has what a
--                   statement does to one job, Claims what a claim gives, Laws the queue's invariant
--   Tests           sample data and the theorems applied to it
--
-- A definition has the name of its source function in snake_case (reconcileUnit is reconcile_unit),
-- and its branches are in the order of the source. A function that returns a Result in the source
-- returns one here. Conventions:
--
--   - an amount is an integer in minor units, as the source's bigint; a date is its integer of
--     milliseconds, and only the input of buildLineage can hold an invalid one;
--   - a currency is its code at run time, so a code that is not supported can occur, as it can when
--     a value comes from a store;
--   - a text with values printed into it is a constructor with those values; the key of a near
--     duplicate is the record of its parts; the prose that `verify` collects beside its failures and
--     the notes of the transition table are left out;
--   - divisions that are only compared are multiplied out (hours, refund cycles);
--   - a merchant scope is its merchant id; `outcomeRecorded` that is absent is false; `sort` is a
--     stable insertion sort; `trim` is a parameter of the lineage;
--   - the table of cases is a function of its primary key; a transition takes the table as it was at
--     its read and the table as it is at its guarded UPDATE, so that other writers may come between;
--     the UPDATE is one step, as a single statement of the database is. The payloads clip texts with
--     a parameter, which stands for slice(0, 500). The append to the log that follows a transition is a
--     statement of its own: in Workflow/Approval it may throw, and the move stays; in the other
--     handlers it is taken to succeed;
--   - the model, the unit loader, the clock and Date.parse answer from outside: each is a function
--     of how often it has been asked, so that no two answers need agree; what the model replies is a
--     decision or a failure, as the gateway returns it. The prompts are their varying parts;
--   - the loops of the agent recurse on what is left of maxSteps, which every iteration uses up by
--     one, so they need no fuel; a tool call in them has the number of the calls before it;
--   - starting an investigation makes two transitions: what other writers do to the cases between
--     them is a function of its environment;
--   - a record of an import is what the schema library leaves of it, so the schema is a function from
--     a body to a request or nothing; the tables of records are known to `insertMany` alone, which is
--     a parameter as the loader of units is. A conflict on a unique constraint is a search of the
--     table; an error that a repository throws ends a run without a tally;
--   - the queue of jobs is a list of rows in the order of the table, times there are milliseconds as
--     natural numbers; SKIP LOCKED is a test of the ids that other transactions hold;
--   - a walk over business days has fuel: three days for each business day, which walk-ends of
--     Policy/Settlement/Walks proves enough. All other loops are structural recursion.
--
-- Not modelled: transport, the other storage adapters, the row of a run and the lineage rows of its
-- cases, the network calls of the model gateway and the texts of the prompts, the web application,
-- the scripts, the scenario generator and the evaluation. Dates beyond the range in which a
-- JavaScript number is exact, and the reading of years 0 to 99 by Date.UTC, are not modelled.
pub mod Base
pub mod Money
pub mod Policy
pub mod Case
pub mod Cause
pub mod Records
pub mod Reconciliation
pub mod Verifier
pub mod Agent
pub mod Ingestion
pub mod Jobs
pub mod Tests
pub mod Tools
pub mod Workflow
