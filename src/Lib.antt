-- ===== src/Lib.antt =====
-- Verification of evalstack, a harness that runs coding agents on evaluation cases, scores what they
-- did, and compares runs.
--
-- The program is the package src/evalforge. An agent works on a case in a workspace and calls a
-- language model; what it does is recorded as a trajectory; evaluators score the trajectory and the
-- workspace; the scheduler runs the jobs of all cases; a run result holds every attempt; statistics
-- and comparisons are made of run results.
--
-- Parts and files:
--
-- Model.antt, Model/ - src/evalforge/model/base.py, pricing.py, budget.py and rate_limit.py.
--   Model holds messages, requests and responses; Model/Pricing the cost of a call; Model/Budget the
--   guard with `reserve`, `settle` and `abandon`, Model/Budget/Client the client around it, and
--   Model/Budget/Ledger all interleavings of the attempts that share one guard, as a step relation.
--   Model/RateLimit is the sliding-window limiter: `prune` is `_prune`, `wait_needed` is
--   `_wait_needed` with its two parts `request_wait` and `token_wait`, `acquire` the loop, and
--   RateLimit/History what a limiter reaches by `observe` and `acquire` from its construction on.
--   Model/Cache is src/evalforge/model/cache.py with `_encode`, `_decode`, `get`, `put` and
--   `CachingModelClient.complete`; Model/Chat is chat_completions.py: `attempts` is the loop of
--   `_post_with_retries` with `judge` for one answer, and Body is `_to_response` with `_parse_tool_calls`.
-- Schema.antt, Schema/ - src/evalforge/schema/case.py, trajectory.py, result.py and dataset.py: the
--   data that the other parts exchange, with the rates, totals and tallies of a run result, and
--   datasets with their references and checks.
-- Env.antt, Env/ - src/evalforge/env/workspace.py: Env/Workspace has a function for each method of
--   `Workspace`; Env/Disk is the file system and the processes as a record of operations, which the
--   theorems take as an argument, and Env/Disk/Memory one such disk.
-- Trace.antt, Trace/ - src/evalforge/trace.py: `truncate` and the recorder, one function
--   `record_<method>` for each recording method.
-- Orchestrator.antt, Orchestrator/ - src/evalforge/orchestrator/scheduler.py: Jobs is `build_jobs`,
--   Retry is `RetryPolicy` and `_run_job`, Scheduler is `run` with its workers as a step relation.
--   Runner is `LocalBackend.execute` of runner.py, the composition of workspace, agent and suite for
--   one attempt: a handler of an exception is the function that its result is passed to; `persist` is
--   `_persist`, on the disk of the workspace, and Filename is `_safe_filename`.
-- Stats.antt, Stats/ - src/evalforge/stats/sampling.py (Sampling) and significance.py (Significance,
--   Required); Stats/Comb is the binomial coefficient.
-- Regression.antt, Regression/ - src/evalforge/regression/compare.py (Compare: `compare` over two run
--   results, which calls the statistics) and clustering.py (Clustering).
-- Selection.antt, Selection/ - src/evalforge/selection/discriminative.py.
-- Evaluators.antt, Evaluators/ - src/evalforge/evaluators/base.py and registry.py (Suite),
--   efficiency.py (Efficiency), trajectory.py (Behaviour), safety.py (Safety), patch.py (Patch)
--   and outcome.py (Outcome).
-- Agent.antt, Agent/ - Loop is `ModelAgent.run` of src/evalforge/agent/model_agent.py with its tools
--   as an argument; Tools is agent/tools.py, a function for each method of `ToolBox`, and
--   Tools/Dispatch is `ModelAgent._invoke`; Run is the loop on those tools, as the runner
--   calls it; Replay is `ReplayAgent` of agent/replay.py.
-- JudgeEval.antt, JudgeEval/ - src/evalforge/judge_eval/bias.py (Bias), agreement.py (Agreement),
--   gold.py (Gold) and validation.py (Validation).
-- Json.antt - JSON values. Prelude.antt, Prelude/ - shared names, lists, texts, dictionaries, sorting
--   and exact fractions. Tests.antt, Tests/ - the theorems at concrete inputs.
--
-- Conventions. An exception is a `none` or a constructor of a result type. A float is an exact
-- fraction, `Ratio`; money is a number of a fixed small unit, and time a number of milliseconds. The
-- loop of `acquire` takes fuel, for the rounds: two more than the sleeps during which other calls report
-- an allowance are enough. Every other loop is structural. What the event
-- loop chooses, what the backend, the model and the sink answer, and how late a sleep wakes up are
-- arguments.
--
-- Not modelled: the store (SQL through a driver), HTTP and its providers, the command line and the API,
-- content hashes, the limits and the launcher of processes, the payloads of requests and the
-- specifications of the tools, the scripted agents, the model judge, the path
-- checks of a case, the text of a trajectory's file, bootstrap intervals, and most dictionaries
-- of details that evaluators attach to a result.
pub mod Prelude
pub mod Json
pub mod Model
pub mod Schema
pub mod Trace
pub mod Orchestrator
pub mod Stats
pub mod Regression
pub mod Selection
pub mod Evaluators
pub mod JudgeEval
pub mod Agent
pub mod Env
pub mod Tests
