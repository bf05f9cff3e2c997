-- ===== src/Lib.antt =====
-- A model of the monitoring and self-healing server assistant, and the theorems that show its
-- core correct. The program watches services and one host: a poll loop per subject probes it, a
-- debouncer turns measurements into committed statuses, and a committed change is saved,
-- alerted and handed to a sink. The sink is the harness: a committed DOWN starts one cycle,
-- which runs read-only tools, asks a Reasoner for a diagnosis, validates what it proposes
-- against the configuration, waits for the approval of an operator, calls the actuator at most
-- once, and waits for the spine to report the recovery. Apart from this, scripts that a model
-- proposes are dry run, approved by an operator under their hash, and run; and an operator may
-- restart the containers of a closed catalog. All this is started from one configuration file,
-- which is checked before anything is wired; a language model outside may read the state of the
-- host over MCP, and a sampler keeps a history of the disks.
--
-- The files follow the packages of the repository:
--
--   Prelude, Prelude/: shared names, tests on numbers and strings, lists, maps as association
--     lists (Dict), and integers where the sign of a Go `int` is tested (Int).
--   Core/Domain: internal/core/domain.go and internal/core/status.go (Status, ProbeResult,
--     Alert, ServiceView, ProbeSample, CommittedStatus, DeriveStatus).
--   Core/Debouncer: internal/core/debounce.go; Core/Debouncer/Spec is its specification on
--     histories.
--   Core/Harness: the types of internal/core/harness.go.
--   Monitor: the state of internal/monitor/monitor.go, New, SetHost, Reconfigure and Resume;
--     Monitor/Probe: hostProbeOnce and probeOnce, split where they wait for the prober;
--     Monitor/Gate: the calls that the loops of Run make, in any order.
--   Monitor/Hub: internal/monitor/hub.go; Monitor/Hub/Listeners: what one listener among the
--     others reads, with the lists of Monitor/Hub/Order.
--   Monitor/Views, Monitor/Blind, Monitor/Gate, Monitor/Blackout, Monitor/Alerts, Monitor/Race:
--     the proofs about the spine.
--   Harness: Options, cycleState and the stages of a cycle in internal/harness/harness.go, and
--     internal/harness/runbook.go; Harness/Engine: ObserveCommit, Approve, Deny, Halt, Rearm,
--     Reconcile; Harness/Run: runCycle as a goroutine whose steps interleave with the handlers.
--   Harness/Proposal, Harness/Safety, Harness/Flight, Harness/Recovery, Harness/Decisions,
--     Harness/Reconcile: the proofs about the harness.
--   Scripts/Domain: internal/scripts/domain.go; Scripts/Store: the tables and queries behind
--     the Store of internal/scripts/registry.go, as internal/scripts/store.go and
--     internal/store/queries have them; Scripts/Diff: the summary of an edit; Scripts/Registry:
--     Propose, Edit, Approve, Deny, Expire and Execute; Scripts/Grants:
--     internal/scripts/grants.go; Scripts/Calls: sequences of whole calls.
--   Scripts/Verdict: internal/scripts/predicate.go and internal/scripts/check.go;
--     Scripts/Verdict/Sound: the proofs about the verdict.
--   Scripts/Gate, Scripts/Moves, Scripts/Lifecycle, Scripts/Execution, Scripts/Access,
--     Scripts/Audit, Scripts/Frame, Scripts/Revocation: the proofs about scripts.
--   Commands: internal/commands/commands.go, the closed catalog of operator commands.
--   Config/Texts, Config/Records, Config/Subjects, Config/Blocks, Config/HarnessBlock,
--     Config/Validate, Config/Secrets, Config/Load: internal/config, in the order from the
--     single value to the file; Config/Library: what it asks of Go and of the machine;
--     Config/Checked: its errors.
--   Config/Sound, Config/Sound/, Config/Order, Config/Secrets/Missing: the proofs about the
--     configuration.
--   Tools, Tools/Bounds: internal/tools/tools.go.
--   Daemon/Actuator: internal/actuator/ssh.go; Daemon/Wiring: run and reloadKnobs of
--     cmd/server-assistant/main.go; Daemon/Started, Daemon/Gate, Daemon/Restarts,
--     Daemon/Probers, Daemon/Starts: the proofs about a started daemon.
--   Mcp, Mcp/Dispatch, Mcp/Http: internal/mcp/server.go, auth.go, tool.go, jsonrpc.go and
--     resource.go; Mcp/Trends: internal/mcp/tools_trends.go; Mcp/Access, Mcp/Catalog,
--     Mcp/Trends/Honest: the proofs about them.
--   Sampler: internal/sampler/sampler.go and internal/store/metric_samples.go; Sampler/Steps,
--     Sampler/Honest, Sampler/Standby, Sampler/Transitions: the proofs about them.
--   Tests: runs of the model at concrete inputs.
--
-- How the code is modelled. A function takes the state and what the outside answered, and
-- returns the new state with the calls it made, in their order. The clock, the probers, the
-- stores, the tools, the Reasoner and the actuator are inputs of every step, so a theorem holds
-- whatever they answer. The errors of RecordProbe, PruneProbeSamples, Notify and the sink are
-- only logged by the code, and log lines are left out. Outside the configuration, times and
-- durations are natural numbers of nanoseconds (milliseconds in the sampler); the clock is
-- later than the retention window, and a negative duration is not modelled. A Go map is an
-- association list, and no result depends on the order of its keys.
--
-- The monitor. A tick is one whole call of hostProbeOnce, of probeOnce or of Reconfigure;
-- Monitor/Race splits a call in two to look at the window in between. The timers of the loops
-- are not modelled: ticks come in any order. The prober of a service is an input of its probe.
--
-- The harness. A place of the goroutine ends where it waits, takes the lock or releases it. A
-- save of the store is one event of the log together with whether it succeeded, in the step of
-- the goroutine or the handler that makes it. A timer may fire at any step, so no theorem
-- depends on its length. The prompt is left out, since the reply of the Reasoner is arbitrary;
-- `quote` stands for the verb %q of fmt, and `fold` for lower case and trimming. No recursion
-- on fuel is used: every loop of the code is a recursion on a list, and a cycle is a list of
-- steps with a bound on its length.
--
-- The scripts. A registry keeps scripts by the hash of their text; a proposal needs a clean dry
-- run and an approval before its script runs. Every call of the store may fail, and then the
-- operation ends at once with what was written before. A call is one step of a sequence; the
-- interleaving of two calls is not modelled. Between two calls of the store all readings of the
-- clock are one reading, and the store keeps times as they are, where the tables round them to
-- milliseconds. `decimal` stands for the verb %d of fmt, and `hash` for SHA-256, which may have
-- collisions: the theorems speak of hashes.
--
-- The verdict. Parsers holds the functions of Go that predicate.go calls: the search for a
-- pattern, whose groups it reads by their number, the parsers of a time and of a number, and
-- the functions on paths and prefixes. A file is the lines that bufio.Scanner hands out and the
-- error that ends them.
--
-- The configuration. Library holds what the package asks of Go and of the machine: the YAML
-- library, which returns the fields as they stand in the file, the parsers of durations and of
-- URLs, the environment, and the files. A number of the file is an integer, and a resolved
-- duration an integer of nanoseconds, without the bounds of int64. The map of the targets is
-- visited in an order that Go chooses; here it is the order of the list; Config/Order compares
-- the orders.
--
-- The daemon. Ports holds what `run` asks of the store, the notifier and the SSH library. The
-- probers of the services stand in a list beside the services, in the same order. A live reload
-- is a tick of the monitor with any list of services.
--
-- MCP. A reply comes with the calls of handlers that were made for it. What a handler answers
-- is part of its tool, and the JSON library is a parameter. A float64 of a trend is modelled by
-- the integer that it holds; NaN and fractions are left out, and the texts of a summary too.
--
-- The sampler. One cycle takes the clock, the answers of the Unraid source and whether each
-- call of the store succeeds. The table lists its rows from the newest insertion on; the latest
-- row of a series is the one with the greatest time, and of these the one inserted last.
--
-- Not modelled: the probers, the notifier, the Reasoner, the sandbox and the other SQL stores
-- (I/O, whose answers are inputs), the Unraid sources and the built-in MCP tools over them, the
-- web dashboard, the HTTP server, and the shim.
pub mod Prelude
pub mod Core
pub mod Monitor
pub mod Harness
pub mod Scripts
pub mod Commands
pub mod Config
pub mod Tools
pub mod Daemon
pub mod Mcp
pub mod Sampler
pub mod Tests
