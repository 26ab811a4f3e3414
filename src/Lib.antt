-- ===== src/Lib.antt =====
-- nm-daemon: the decisions of a NetworkManager daemon, as far as they are pure or keep their state in
-- memory. The program serves requests over a socket and D-Bus, runs them on worker lanes, and reports
-- to subscribers. These are the parts that are modelled, and how they meet.
--
-- Portal (src/portal.rs, src/portal/ledger.rs). A client asks for the launch of a captive-portal page.
--   Portal/Policy has `safe_url`, `episode_context`, `validate`, `prepare`, `claim` and `complete`, the
--   decisions about the request; they call Portal/Ledger, which has the persisted state with `open`,
--   `persist`, `reserve`, `launch`, `claim` and `complete`. The ledger's `System` is its memory and its
--   file; `Storage` is the encoder and the atomic write, whose failures are values, before or after the
--   commit. Automatic launches rest on the terminal result of a connection, which the runtime keeps.
-- Runtime (src/daemon_runtime.rs and src/daemon_runtime/). Runtime/Tasks is the task map with its
--   terminal results: registration, cancellation, deadlines, progress and statuses. Runtime/Interfaces
--   is what it takes of JSON events and of the table of recent results, as records of operations and
--   laws. Runtime/Admission (admission.rs) admits one connection attempt per network and holds back
--   failing credentials. Runtime/Subscriptions (subscriptions.rs) is the control actor, a function
--   from a message and its state to a state and a list of effects, and Runtime/Feedback
--   (health_feedback.rs) is the advice that goes with its health events.
-- Activation (src/connect_wait.rs, src/activation.rs). Activation/Wait is the wait of a connection for
--   its target, with the parts of src/deadline.rs, src/connect_error.rs, src/connect_cancel.rs and
--   src/nm/mod.rs that it reads; Activation/Credentials is the stop that a credential request
--   leaves on an activation, which the wait reads.
--   Activation/Registry is the table of weak references to those activations, which finds the activation
--   of a connection for a secret request.
-- Forget (src/forget.rs). Forget/Execute is the request: it cancels the connections to the network in
--   the task map, waits for them, and calls the workflow of Forget: disconnection with its confirmation,
--   autoconnect off, deletion, result. Forget/Binding is the interface to NetworkManager and the log of calls.
-- Secret (src/daemon_secret.rs, src/daemon_secret/storage.rs). Secret/Registry and Secret/Agent are the
--   registry of pending secret requests and its operations, in the way D-Bus and the frontends call them;
--   Secret/Policy is what the flags of a setting let a frontend choose; Secret/Response is what an
--   answer writes to a connection. A request is live while the activation it belongs to is. Each
--   round in which a thread waits for its answer is an operation, `await_response`, with the events that
--   it emits; Secret/Prompts counts those that ask for credentials.
-- Cache (src/cache.rs, src/cache/merge.rs, src/cache/storage.rs). Cache and Cache/Update are the snapshot
--   of the networks, the active status and the known connections with the transactions on them,
--   each write of which may fail, before or after it replaced its file;
--   Cache/History is the rotated log files.
-- Forward (src/daemon_forward.rs, src/daemon_forward/safety.rs). A command line hands its command to the
--   daemon over the bus. Forward/Transport is the bus and `call`; Forward has the reading of events, the
--   recovery of a lost result, `run_operation` and `forward_immediate`, which may fall back to a direct
--   run; `dispatch_forward` chooses between the two.
-- Scan (src/nm/scan_schedule.rs). Scan/Schedule is the scheduler's table of devices, Scan/Scope which
--   scan covers which request, and Scan/RateLimit the wait before the next request.
-- Qr (src/qr.rs). Writing and parsing Wi-Fi QR payloads.
-- Model (src/model.rs, src/model/selection.rs, src/error.rs). Failure reasons, error codes and selection.
-- Base holds helpers: tests, lists, maps, sets, results, text and integers over the native numbers.
--
-- State and time. A method that holds its lock throughout is one step on an explicit state; a type of
-- operations, or a step relation, gives the histories, so every interleaving of whole steps is one of
-- them. The clock is an argument, in milliseconds where the code counts them. A hash map is a list of
-- keys and values; u64 values that only grow by one saturate or wrap as they do in the code, and the
-- other numbers are unbounded. Text is a list of code points where the code looks inside it.
--
-- Fuel. Most loops are structural, over the entries of a map, the characters of a text, or the rounds
-- that a waiting thread makes. A list of rounds may end before the loop does; the answer is then `none`,
-- and a theorem says which rounds make it return. The two loops of a forget request, which poll until a
-- deadline, take fuel. A wait may return at once, so the number of rounds that take a millisecond is a
-- parameter; fuel for that many rounds in each of the 10,000 milliseconds of a wait, and one more, is
-- enough. The binary search of a scan's scope halves its list, with the length of the list as fuel.
--
-- Not modelled: D-Bus and the NetworkManager binding (src/nm/), the lifecycle, session and persistence
-- of the secret agent, the connection engine that sequences NetworkManager calls, the files below the
-- snapshot cache, casting, discovery, the command line, JSON and messages. The crates' parts (URL
-- parsing, JSON encoding, hashing, QR drawing, recent results), and the schema of credential settings, are
-- parameters with the laws that the code relies on. Poisoned locks are recovered or left out.
mod Base
pub mod Portal
pub mod Model
pub mod Activation
pub mod Runtime
pub mod Scan
pub mod Qr
pub mod Forget
pub mod Secret
pub mod Cache
pub mod Forward
