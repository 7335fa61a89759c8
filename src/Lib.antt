-- ===== src/Lib.antt =====
-- Verification of devmate: the workflow core.
--
-- devmate drives a coding task through a fixed sequence of gates. The task is one JSON object in
-- .devmate/state/task.json. `transitionGate` proposes the next state, `validateTaskState` says
-- which objects are task states, and the store reads and writes the file under a lock. The gate
-- guard matches the paths that an agent wants to edit against glob patterns.
--
-- The parts and their files:
--   * Gates: lib/gate-transitions.mjs. Gates/Tables has the frozen tables, Gates/Sets the sets that
--     are derived from them (flattenTransitions, legalTransitions, reachableGates), Gates/Edges
--     the edges of the tables as propositions, Gates/ResumePointer the resume pointer of
--     lib/gate-preconditions.mjs, and Gates/Transition the function transitionGate.
--   * Gatectl: the table, advanceGate and isLegalTransition of lib/gatectl.mjs. Gatectl/Human is
--     advanceHumanGate, over the store of TaskState and the checks of Preconditions.
--   * TaskState: lib/task-state.mjs. TaskState/Validate is validateTaskState and
--     gatesValidForLane, TaskState/Moves relates it to transitionGate, TaskState/Store is
--     readTaskState, writeTaskState and mutateTaskStateUnderLock with the log of
--     lib/state-transition-log.mjs, TaskState/Retry is mutateTaskStateWithRetry,
--     TaskState/Rename is commitRenameWithRetry and TaskState/Migrate is migrateTaskState.
--   * FileLock: lib/file-lock.mjs, the lock that mutateTaskState takes. FileLock/Acquire is
--     withFileLock as a step relation of any number of calls.
--   * Glob: matchGlob of lib/gate-guard-core.mjs and its helpers.
--   * Ownership: ownsFile and filesOutsidePersonaScope of lib/gate-guard-core.mjs.
--   * TddGuard: evaluateTddPreCondition and applyTddGuardTransition of the same file.
--   * EditGuard: evaluateGuard of the same file and isEditAllowedAtGate of lib/gate-edit-policy.mjs.
--     EditGuard/Artifacts is normalizeArtifactPath and sessionArtifactVerdict, EditGuard/Tools is
--     isSourceEditTool, EditGuard/Segments is splitShellSegments and EditGuard/Shell
--     shellWritesSource. toLowerCase is a parameter.
--   * Preconditions: the checks of lib/gate-preconditions.mjs, which transitionGate calls.
--     Preconditions/Artifact is requireArtifact, Preconditions/Gated the checks that a mode of the
--     configuration turns on, Preconditions/Entry puts them behind transitionGate.
--   * Approvals: hooks/approval-listener.mjs. Approvals/Phrases is lib/routing/approval-phrases.mjs and the
--     parsing of a prompt, Approvals/Workspace the files and answers, Approvals/Lanes and
--     Approvals/SpecFiles the moves of lib/workflow/lanes/feature.mjs and chore.mjs,
--     Approvals/Listener the three approvals, Approvals/Commands the other phrases,
--     Approvals/Prompts handleUserPromptSubmit.
--   * Subagents: hooks/subagent-budget-guard.mjs, the start and the stop of a subagent on the count and the
--     roster of task.json. A call has the world that it reads and the world in which it has the lock.
--     The scope, the diagnosis and the configuration are what other modules read; the trace events
--     and the command line of the hook are left out. Subagents/Ceiling has the count's bound.
--   * SpecProgress: computeAcCoverage and nextAcNumber of lib/spec-progress.mjs.
--   * LoopGuard: runLoopGuard of lib/loop/loop-guard.mjs with its three checks.
--   * DependencyGates: lib/dependency-gates.mjs, the gates of gates.json with their prerequisites.
--   * Workstreams: lib/workstream-partitioner.mjs, the partition of files among two personas.
--   * Dispatch: lib/workflow/dispatch-gate.mjs and lib/workflow/dispatch-sequencing.mjs, with the
--     name handling of lib/workflow/orchestrator.mjs. `trim` and `toLowerCase` are parameters.
--   * Json: parsed JSON. A number is a natural number, a negative integer or a number that is
--     no integer, which is as much as the code asks of one. Prelude: shared helpers.
--   * Tests: samples, and the theorems at concrete inputs.
--
-- How state and operations correspond. A state is the list of the fields of the JSON object, in
-- their order; `{ ...state, key: value }` is `set`. An error text is a constructor that carries the
-- values the text shows. An operation of the store takes the world, which is the file and the log,
-- and what the host answers during the call (the directory, the lock, the write, the log's append
-- and the clock), and returns its result with the next world. The body under the lock is one step;
-- other writers act between the steps of a retry. JSON.parse and JSON.stringify are a record with
-- the law that parsing what was printed gives it back. Date.parse and, in Gates, the
-- precondition check of a gate are parameters.
--
-- Fuel. matchSegment loops on 3 ^ (length of both texts + 1) + 1 rounds: each round replaces a
-- state by at most two that are one step nearer the end. reachableGates has 20 rounds, and a gate
-- enters its queue once, of which there are 15.
--
-- Numbers. A version is a natural number, so a version and its successor differ; the source's is exact
-- below 2 ^ 53. A confidence is the quotient of two naturals. The comparison of digests stands for
-- timingSafeEqual, which throws on two texts of one length in UTF-16 and of different lengths in
-- bytes; a digest is ASCII text, and that throw is not modelled. An approval of the prompt hook reads
-- and writes with no writer in between; Gatectl/Human has one.
--
-- Not modelled: the prompts, agents, other hooks and scripts around this core, and the validators of the
-- artifacts, which the checks of the gates call through a record of what they read. The store sees
-- the lock as one outcome, and the retried rename as one outcome of its write; FileLock and
-- TaskState/Rename have what stands behind them.
pub mod Prelude
pub mod Json
pub mod Glob
pub mod Gates
pub mod Gatectl
pub mod EditGuard
pub mod Approvals
pub mod FileLock
pub mod Preconditions
pub mod SpecProgress
pub mod TaskState
pub mod DependencyGates
pub mod Ownership
pub mod TddGuard
pub mod LoopGuard
pub mod Subagents
pub mod Workstreams
pub mod Dispatch
pub mod Tests
