-- ===== src/Lib.antt =====
-- Verification of the uptime monitor's Go services: the decision when a site is down, the Raft library
-- with its crash-safe log, and the services around them.
--
-- How the parts interact. cmd/scheduler keeps a publish loop for each enabled monitor of the database
-- and publishes check jobs; cmd/checker makes the HTTP check of a job and publishes the result;
-- cmd/evaluator stores it, feeds it to the monitor's consensus engine (internal/evaluate) and turns the
-- transitions that the engine commits into incidents and alerts. internal/raft is a Raft node for the
-- evaluators, over the log, hard state and snapshot files of internal/raftlog.
--
-- Which module models what:
-- - Prelude: shared tests on numbers, lists, integers, maps as association lists, strings.
-- - Time: time.Time and time.Duration as nanoseconds in int64 with its saturating difference.
-- - Evaluate (internal/evaluate/evaluate.go): the record Monitor and its methods observe, consensus and
--   evaluate, each giving the new engine. Consensus, Debounce and Commit prove, Tests run.
-- - Raftlog (internal/raftlog): Bytes (big endian, CRC-32), Entry, Record, HardState, SnapshotFile, Log
--   (Append, At, TermAt, From), Compact (TruncateSuffix, Snapshot, InstallSnapshot, rewriteLocked) and
--   Recover (Open, recover) are the code, over the bytes of the files; Sound is the invariant between
--   memory and files, and Contiguous, Appending, Cutting, Compacting, Crash and Interrupted prove.
-- - Raft (internal/raft/raft.go): Node (the record Raft and the messages), Roles (elections), Replication
--   (the leader), Handlers (the three messages) and Life (New, Start, Propose, the apply loop, Stop) are
--   the code; Votes, Commit, Merge, Accepted, Progress and Durable prove. Cluster is a system of such
--   nodes: System has its steps (timeouts, requests, replies, restarts), Safety what they keep.
-- - Message, Config, Scheduler, Check, Alert, Evaluator: internal/message, internal/config,
--   cmd/scheduler, internal/check with cmd/checker, internal/alert and cmd/evaluator. Evaluator.Books
--   performs the evaluator's effects on the database, and Seed is its start. The scheduler's state has the
--   map `running` and the loops that are alive; Loops relates the two, and Moves, Rounds, Watched and
--   Reconcile follow a round of syncOnce.
-- - Store (internal/store/store.go, over the tables of migrations/): Users, Monitors and Incidents, one
--   function per statement; Calls, Keeps, Tokens and Answers prove, the first two
--   for all ways in which a call may end.
-- - Auth (cmd/web/auth.go): the gate, login, logout, signup and the password reset, over
--   Store; Sessions, Resets, Grants and Accounts prove.
-- - Web (cmd/web/main.go): the forms for monitors behind the gate. Single (cmd/monitor): the monitor in
--   one process.
--
-- How state and effects are modelled. A method is a function from the record of its receiver to the new
-- one. Mutexes are taken as they are meant: a function is what runs between taking and releasing one.
-- Whatever the environment chooses is an argument: the clock, the random part of the election timeout,
-- the outcome of each write (`done`, or `failed n` with n bytes or n stages done, after which a crash
-- is a restart from the files as they are), what the HTTP client answers and what the store answers.
-- The evaluator's calls of the store, the notifiers and the metrics are lists of effects. The database is
-- a record of tables, and each call of it ends with its answer, with an error and no effect, or with an
-- error after its effect; `calm` is a database whose calls all go well. What happens to
-- a Raft node is a list of inputs in any order, so every interleaving of the goroutines is one of them.
--
-- Bounds. uint64 counters keep their wrap-around; theorems that need room for one more say so. The
-- replay of the log file runs on fuel, its length in bytes, which is enough since every record takes at
-- least one. The loop of maybeAdvanceCommitLocked runs on fuel, one more than the last index, which is
-- enough while that is below the greatest uint64; at it the loop of the source never ends, and the
-- theorems about it ask for an index below. The other loops of raft.go run over a range that is known
-- when they start.
--
-- Not modelled: NATS, JSON, YAML, bcrypt and SMTP, which are libraries, and how the database runs its SQL;
-- the statements that aggregate checks for the page, and the page that is built from them; logging;
-- and the HTML of an alert and how it is sent.
--
-- Modules with the proofs of a component stand below it or beside it, and its Tests module holds runs
-- at concrete inputs and the theorems at such inputs.
pub mod Prelude
pub mod Time
pub mod Evaluate
pub mod Raftlog
pub mod Raft
pub mod Message
pub mod Config
pub mod Store
pub mod Auth
pub mod Web
pub mod Single
pub mod Scheduler
pub mod Check
pub mod Alert
pub mod Evaluator
