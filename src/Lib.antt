-- ===== src/Lib.antt =====
-- better-hermes-hindsight: a model of the durable retention outbox with its sender and its
-- runtime, of the construction of retained records, of the handoff of recall plans, of the
-- bounded formatting of queries and recalled memories, and of the watchdog of
-- better_hermes_hindsight, with the properties that make them correct.
--
-- A completed turn of a conversation is redacted and packed into canonical JSON records
-- (retention.py). The process's one runtime admits the records as rows of a SQLite outbox
-- (runtime.py, outbox.py). Its sender, a thread that holds the profile's lock, claims the rows
-- one by one and hands their segments to the client; a row is deleted when the service
-- confirmed its segment and rescheduled when it did not. On the way back, a planner running
-- beside the provider hands a recall plan to the provider's next request through a mailbox in
-- the process, which the request consumes once (plan_mailbox.py); a query is cut to the
-- service's limits, and what is recalled is formatted as evidence within a number of bytes
-- (formatting.py). A watchdog reads the events that all of them emit, and alerts on transitions
-- (watchdog.py).
--
-- Files, with the code that they model:
--
-- - Common: Python's str as lists of code points, dict in insertion order, list comprehensions,
--   and their lemmas; the numbers are the native natural numbers.
-- - Json: `_canonical_json` of better_hermes_hindsight/retention.py, on the values that the
--   code hands it.
-- - Retention/Segment: `RetainedSegment` and `derive_segment_payload_hash`.
--   Retention/Paragraphs: `_semantic_paragraphs`. Retention/Packing: `_semantic_contents`,
--   whose loop over the paragraphs is the record Pack and pack_paragraph; Packing/Bytes,
--   Packing/Bounds and Packing/Totality hold what is proved of it. Retention/Build: the end of
--   `_build_retained_segments`, and in Build/Admissible and Build/Accepted its agreement with
--   the outbox's checks.
-- - Outbox: better_hermes_hindsight/outbox.py. Types has the enumerations, the rows and the
--   state `SqliteOutbox`; Order the ORDER BY clause of a claim; Table the statements that the
--   code runs; Lock `try_acquire_profile_lock`, `release` and the identity checks; Validate
--   `_validate_candidates`, with what it guarantees in Validate/Laws, Repeats and Exact;
--   Admission `admit` and `_admit_in_transaction`; Claims `recover_sending`, `claim_due`,
--   `complete_claim`, `reschedule_claim` and `next_matching_retry_deadline`; Lifecycle the
--   operations as steps, and Lifecycle/Runs sequences of them; Snapshot `inspect_outbox`, with
--   Snapshot/Counts on what the status counts, and Snapshot/Inserted and Snapshot/Clean on what
--   no operation leaves behind. Samples has a small outbox.
-- - Sender: `OutboxSender` of better_hermes_hindsight/runtime.py. Sender has what it keeps and
--   the place of its thread; Sender/Deliver `_deliver_claim`; Sender/Loop the loops of `_run`
--   and `_run_as_owner`, one turn at a time; Moves the protocol that every turn keeps to,
--   proved in Moves/Turns; Handed what a turn hands to the client; Runs, Ownership and Stop
--   what follows for the outbox, the lock and the end of the thread.
-- - Runtime: the rest of better_hermes_hindsight/runtime.py. Runner is `AsyncRunner`, and
--   Settlement its race of publications and completions; Operations the calls of
--   `ProcessRuntime`, and Delivery a turn from its admission to its delivery; Finalize
--   `ProcessRuntime.finalize`, Closing its end from the closing of the outbox on, and Shutdown
--   what its outcomes say; Process `acquire_process_runtime`, `finalize_process_runtime` and
--   the handles, and Renewal what can be acquired after a finalization.
-- - PlanMailbox: better_hermes_hindsight/plan_mailbox.py. State has the state of one home and
--   its helpers; Turns and Consume the operations; Invariant, Ownership and Runs what every
--   call keeps; Beginning what a token for a turn means; Fenced and Meanwhile what keeps a
--   closed turn closed; Handoff, Fencing and RoundTrip what a consumption promises.
-- - Formatting: better_hermes_hindsight/formatting.py. Markers has the markers and the text
--   operations; Query `project_query`, and Fits its loop; Records `_project_record`,
--   `_serialize_record` and `_memory_fingerprint`; Truncation `_fit_truncated_record`; Context
--   the recalled and the reflected context; Lines, Selecting and Budget their bytes.
-- - Watchdog: `evaluate_watchdog`, `_read_state`, `_validate_thresholds` and the bound of
--   `_write_state` of better_hermes_hindsight/watchdog.py; Quiet and Transitions hold what is
--   proved of it.
-- - The Examples modules run the definitions on concrete inputs and apply each theorem to some.
--
-- Conventions. An operation on an object takes the object's state and returns the result with
-- the state after it; an exception is a value of the result. What the environment answers is an
-- argument: the clock's time, a fresh token of uuid4, what stat, open and flock see of the lock
-- file, and the fault, if any, that ends a transaction of SQLite, which is then rolled back.
-- SHA-256, the decoding of a multimodal envelope, json.loads, the tokenizer, the redaction and
-- the normalization of Unicode are functions in the settings or arguments. Wall-clock and
-- monotonic times are natural numbers of ticks, because the code compares and adds them only;
-- the quotient of two counts compared with a rate of the watchdog is a function, since it is
-- taken in floating point. The mailbox's registry is keyed by home, and an operation reads and
-- writes the entry of its own home only, so the model has that entry.
--
-- The sender's thread is a state machine: its place says where in the two loops it is, and a
-- turn of a loop takes a moment, which holds what each of its calls meets, the admissions of
-- other threads before the turn and during the call of the client, and the requests to stop
-- before each check. A run of the sender is a list of moments. Its trace has the segments
-- handed to the client, the telemetry without the elapsed time, the waits, and where the lock
-- is taken and released. The runtime's outbox is the one that its sender holds.
--
-- Fuel. The decimal digits of a number are written on fuel above the number. The doubling loop
-- of the retry delay is structural in the attempts that are left. The blank lines of a
-- paragraph separator, the scan of the paragraphs and the removal of envelopes from a query run
-- on fuel that is the length of the text, of which each turn takes a character. The loop of the
-- query's projection has fuel above its number of tokens, which each turn lowers, and the
-- binary search for a prefix has fuel above the number of characters between its bounds; that
-- both are enough is proved.
--
-- Not modelled: the opening of the database, its private paths and its schema, and the listing
-- of `read_unconfirmed`; the construction of a runtime and the cleanup when it fails; the tasks
-- inside the event loop, and threads but for the interleavings named above, since the locks of
-- the code let one run at a time; the provider, the planner, the HTTP client, the configuration
-- and the command line; the checks of a turn's input, its redaction, and the construction of
-- the identity and the time of a record around its packing. Lone surrogates, which cannot be
-- encoded, are kept apart where a hash is taken, a turn is packed or the bytes of a line are
-- counted.
pub mod Common
pub mod Json
pub mod Retention
pub mod Outbox
pub mod Sender
pub mod Runtime
pub mod PlanMailbox
pub mod Formatting
pub mod Watchdog
