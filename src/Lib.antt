-- ===== src/Lib.antt =====
-- Verification library of skill-code-review: the deterministic core of an automated code review.
--
-- The program drives a state machine (code_review/spec.py). Worker states call a language model;
-- inline states call the handlers of code_review/handlers.py, each a function from the run's
-- environment, a dict, to the fields that it adds. The runner (code_review/runner.py) walks the
-- machine and dispatches one specialist for each planned unit of files through a thread pool. The
-- environment is what the parts share: the triage sets the tier, the planner reads the tier and the
-- picked leaves and writes batches, the runner's loop writes one payload for each batch, the merger
-- checks the payloads against the batches, and the coverage and the readiness judge the findings.
--
-- Files and what they model:
--   Value, Result    the JSON values that the handlers exchange, with the guards `_ensure_list`,
--                    `_ensure_dict` and `_env_from_ctx`; exceptions, `int`, `float` and iteration.
--   Glob             `_compile_glob` and `_minimatch`. A pattern is compiled to pieces, and
--                    `accepts` decides what `re` decides for the regular expression of the pieces.
--   Planner          `handle_plan_specialist_batches`: leaves to units, units to batches.
--   Triage           `handle_risk_tier_triage`: risk signals, tier and cap.
--   Readiness        `handle_synthesize_release_readiness`: eight gates and the verdict.
--   Coverage         `handle_verify_coverage`: reviewers by file, and the gaps.
--   Merger           `handle_merge_specialist_outputs`: the fold of the loop's payloads, the two
--                    checks that raise, and the size guard.
--   Verifier         the counts of rejections and `handle_verifier_stuck`.
--   Activation       `handle_activate_leaves` and `_evaluate_activation`: globs, keywords, structural
--                    signals, the escalation between leaves, and the projection of a leaf's fields.
--   Worker           `_call_worker_resilient`, `_coverage_floor` and the worker branch of
--                    `run_review`: retries, degraded outputs and the floor under the picks.
--   Findings         `handle_collect_findings`: dedupe, order, `_semantic_merge` with its
--                    union-find, the primary gate and the counts.
--   Exits            `handle_short_circuit_exit` and `handle_stage_a_empty`.
--   Panel            code_review/verifier_handler.py: the votes on a worker's outputs.
--   Dispatch         code_review/dispatch.py: the tier of a call, what a prompt leaves out of a leaf
--                    and what is put back, the ranker's decisions, the parse of an answer, and
--                    the removal of nulls.
--   Cost             code_review/cost.py: the token counts that a call is stamped with.
--   Characters       what Python's character database and `re.IGNORECASE` are asked for.
--   Spec             the 19 states of `build_spec` and the runs through them.
--   Runner           `_AdaptiveLimiter`, `_split_unit` and `_dispatch_one`.
--   Pipeline         `_dispatch_units` and the loop branch of `run_review`, and plan, loop and merge
--                    together.
--   Review           `run_review`: the loop over the states, with the branches for inline states, the
--                    loop and the workers, and the engine's advance behind each.
--   Base             lists, texts, sets and dicts; it models no code of its own.
--   Tests            each theorem below at one concrete input.
--
-- How the code is read. A handler is a function on `Dict Value`, the environment that
-- `_env_from_ctx` builds. A dict is an association list in insertion order, a set of texts a list
-- that no reader can tell the order of. What Python raises is a value of `Result`. Texts are
-- Unicode texts, compared by code points. Integers are unbounded, as in Python. Floats are
-- fractions, infinities and NaN; no arithmetic on them is modelled.
--
-- Arguments instead of code outside the repository: `Parsers` (what `int` and `float` make of a
-- text), `Wiki` (which metadata the frontmatter loader finds for a leaf's path), the size of a JSON
-- text, the evaluation of the engine's predicates, the engine's `execute_inline` and `advance`
-- (Engine), and the dispatch hooks. The runner's cost stamp of a merged result, the measured times
-- and the price of a call are arguments too. So are `Characters`, the embedder that may judge two
-- findings, `str` of a value, `json.loads`, the leaves of the wiki and the text of the diff. That
-- the engine follows the specification of the states is the hypothesis `Follows` of the theorems on
-- `run_review`.
--
-- Loops and bounds. The planner's slicing makes as many rounds as the source's `range`, its packing
-- at most one round for each unit; the size guard makes the source's `max_passes`. `_dispatch_one`
-- has the greatest depth of nested calls as an argument: the number of files of the unit is enough.
-- `run_review` has the limit of rounds as an argument, which is `max_steps` in the source. A run
-- through the state machine has a number of transitions as an argument: 15 are enough. `find` of
-- the union-find has n * n + 1 rounds for n issues, which is enough for each call; the escalation
-- ends after one round more than there are leaves; a worker is called at most as often as the
-- source calls it. In Pipeline the loop has one iteration a batch; the state allows the engine 64
-- of them.
--
-- Not modelled: the walk through the wiki's files and the diff from git, the report, the run
-- directory and the emission of the report, the processes and services behind a dispatch, the price
-- of a call, sharding, the installer, the command line, the scripts and the benchmarks. They are
-- input and output, arithmetic on floats, or stand outside a review. Of `run_review`, the lookup of
-- the hooks and the measured times are left out. Threads are modelled for the limiter only, as steps
-- in any order; a dispatch is modelled from the view of its own thread.
pub mod Base
pub mod Value
pub mod Glob
pub mod Result
pub mod Characters
pub mod Planner
pub mod Triage
pub mod Readiness
pub mod Coverage
pub mod Merger
pub mod Verifier
pub mod Spec
pub mod Runner
pub mod Worker
pub mod Pipeline
pub mod Review
pub mod Activation
pub mod Findings
pub mod Exits
pub mod Panel
pub mod Cost
pub mod Dispatch
mod Tests
