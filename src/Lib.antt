-- ===== src/Lib.antt =====
-- PARA11AX, a gateway for cyber threat intelligence: the deterministic core that runs providers within
-- budgets and keeps their answers.
--
-- A request for an indicator names a workflow's providers. The orchestrator takes what the cache has,
-- ranks the other providers and hands them to the scheduler, which runs them in a pool of workers under
-- a deadline and a call budget and asks and tells the circuit breaker about each of them. A batch runs
-- such requests under one budget. An agent's state is a checked value that each action replaces by a
-- stamped one. The shell parses command lines into pipelines; an investigation keeps artifacts that changes
-- make stale.
--
--   Cache: src/core/cache.js, the bounded cache of provider results and its shared loads.
--   Breaker: src/core/circuit-breaker.js, the circuit of each provider.
--   Priority: src/core/provider-priority.js, the order of the providers.
--   Scheduler: src/core/scheduler.js, the run of one provider (Scheduler), the pool of workers as
--     sequences of events (Scheduler/Pool), the tiers (Scheduler/Tiers), and the pools of a request with
--     their report (Scheduler/Report).
--   Batch: src/core/batch.js, a batch of indicators: the grouping of the inputs (Batch, Batch/Collect),
--     the pool of workers with its budget of calls (Batch/Pool), the rows of the result.
--   Shell: app/shell-core/parser.js, the parser of the shell's command lines: the tokenizer and the
--     screen of raw lines (Shell), the stages and their checks (Shell/Pipeline).
--   Investigation: src/core/investigation, which artifacts a change makes stale (dependencies.js, in
--     Investigation) and the status (status.js, in Investigation/Status).
--   ContextBudget: src/core/context-budget.js, the plan of a context window and the
--     selection of items within a limit of tokens.
--   AgentState: src/core/agent-state.js and agent-policy.js, the state of an agent's work: what an import
--     lets through (AgentState, AgentState/Import), creation and the reducer (AgentState/Reduce), drift
--     and handoff envelopes. Its stamps are digests of Sha256: src/core/sha256.js.
--   ModelRouting: routeModelTask of src/core/model-routing.js, the tier of models for a task.
--   Semantics: src/core/semantics.js, the classes of observations and the polarity of verdicts.
--   Orchestrator: `enrich` of src/core/orchestrator.js, its passes over the cache and the scheduler's
--     results (Orchestrator), coverage (Orchestrator/Coverage) and their composition (Orchestrator/Enrich).
--   JsMap, JsText, Common: the JavaScript Map and string, stable sorting, and shared lists and tests.
--
-- A class is a record of its fields and a method a function from the record to its result and the new
-- record; an operation takes the readings of the clock that it makes as arguments, in their order. A
-- function that awaits is cut at its awaits, and the event loop is a sequence of events. Numbers are
-- naturals: times, counts and sizes that the source's guards let through. Loops recur on their list, or
-- on what is left of it; the pool's runs are bounded by a theorem. Fuel stands only in the hexadecimal
-- digits of a 32-bit word: eight steps, which are enough for one (Sha256/Digest).
--
-- Parameters stand for the platform: the size of a value's JSON text, the reading of numbers and dates
-- in a retry-after text, white space and letter case, timestamps, the bytes of a text, canonical JSON,
-- the sorting of texts, and the floating-point products of the context plan; for the caller's callbacks
-- of a batch; and, in the orchestrator, for the registry, the cache, the scheduler's run and what
-- makes evidence and correlations. Not modelled are the providers' own requests and parsers, the missions,
-- the HTTP and MCP servers, the user interface and the report texts.
pub mod Common
pub mod JsMap
pub mod JsText
pub mod Cache
pub mod Breaker
pub mod Priority
pub mod Scheduler
pub mod Batch
pub mod Shell
pub mod Investigation
pub mod ContextBudget
pub mod Sha256
pub mod AgentState
pub mod ModelRouting
pub mod Semantics
pub mod Orchestrator
