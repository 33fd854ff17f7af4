-- ===== src/Lib.antt =====
-- llauncher starts, stops and swaps llama-server processes on the ports of a machine. This library
-- models its core in Python: what the verbs do to the shared files and to the processes, and what
-- their results say of it.
--
-- The parts, and how they meet. The verbs (llauncher/operations) are called by the HTTP agent, the
-- CLI, the MCP server and the UI, often from several processes at once. They share the files of the
-- run directory, a lockfile and a swap marker for each port, the config file and the audit log
-- (llauncher/core), and they see the processes of the machine through psutil.
--
--   Base        tests, equality, lists, dicts and texts over the native numbers
--   Records     the records in those files: llauncher/core/lockfile.py, core/marker.py,
--               core/audit_log.py, models/config.py
--   Host        State: the files and processes of the machine (World), and all that the program
--               does not decide (Env): what psutil shows, how a process takes a signal, whether a
--               disk write works, and what other processes do to the files. Monad: code with
--               exceptions. Hoare, Frame, Framed and Safely: how to reason about it.
--   Core        llauncher/core: Files and Lockfile and Marker (files made with O_EXCL), AuditLog,
--               Config (ConfigStore), Process (process.py: Command is build_command, Scan is
--               find_server_by_port and the recognition of a server, Ports the choice of a port,
--               Roster verify_pid and discover_all, Start, Stop, Wait). Kept says what each of
--               them leaves alone. Config.Migration and Config.Load: how old entries of config.json
--               load. LogRotation (log_rotation.py), AgentToken (agent_token.py),
--               ModelHealth (model_health.py), Gpu (gpu.py), Settings (settings.py) and Delegation
--               (delegation.py).
--   Operations  llauncher/operations: Preflight, Start, Swap, Stop, Delete, Reconcile, Validate.
--               Orphan has the refresh of the orphans too, which llauncher/state.py does. A verb is
--               one function for each step of its body, named after the step. Stop.Background is
--               the stop on a worker thread, with the registry of those in flight.
--   Agent       llauncher/agent: Routing (the status codes and the endpoints of the verbs),
--               Middleware (the check of the key and the limit on a body), FooterCache and Server
--               (server.py: run_agent and main as functions to an outcome, with the file agent.env
--               after it; Shutdown is the end of lifespan, which stops the servers)
--   Remote      llauncher/remote: Node (node.py, the calls of a node), Registry (registry.py, the
--               nodes and their files) and Aggregator (state.py, what runs on all nodes)
--   State       llauncher/state.py: can_start and can_stop, and the change rules. Running is the
--               list of the running servers, and Eviction the start that stops the old server.
--   Util        llauncher/util/cache.py: the cache with a time to live
--   Tests       the theorems on a concrete machine
--
-- An operation of Core and Operations that reads or writes the machine is a function from an Env and
-- a World to a result or an exception and the new World.
-- Each access to a file or a process is one step. Before it, the other processes take any number of
-- steps of their own (Env.acts), so a theorem without a hypothesis on them holds for every
-- interleaving. A theorem that needs their restraint names it: Unchallenged (they put no marker on
-- the port, also not by a cancel request that is under way) and Settled (they do not change who
-- claims the port).
--
-- The only loop without a bound in its data is the readiness poll. It is followed for Env.rounds
-- rounds, of which the theorems say nothing but where they need enough: timeout + 1 rounds are, if
-- the clock shows a second or more for each sleep of a second (Forward).
--
-- Not modelled: messages and timestamps, which only people read; the JSON text of the files (a file
-- parses, or it is corrupt); the log file that a child writes; the in-memory caches of the process
-- scan but for their purge. Config.Migration and Config.Load work on JSON values, and the store that
-- the verbs read starts from the entries that loaded. The checks before a launch are parameters, as
-- in the source, and so is pydantic's check of an entry. The UI, the CLI and the MCP server call the
-- verbs and hold no state of their own that a verb reads. Left out too are the two other backends of
-- Gpu, the endpoints of the agent that only read, and what its --stop does to find a process. How
-- uvicorn runs the application is an argument of main.
-- The unlink of a lockfile, and the opening of one file of a known port, are taken to work; the
-- unlink of a marker and the listing of the lockfiles are not. int() has no limit on its digits.
pub mod Base
pub mod Records
pub mod Host
pub mod Core
pub mod Operations
pub mod Agent
pub mod Remote
pub mod Util
pub mod State
pub mod Tests
