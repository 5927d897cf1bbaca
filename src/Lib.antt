-- ===== src/Lib.antt =====
-- Verification of the Dora agent backend (Go, internal/aigc), a server that runs an LLM agent over
-- durable chat sessions.
--
-- Parts. HTTP handlers (internal/aigc/server) and the approval, generation and event subsystems put
-- typed inputs into the lane of a session (sessionruntime EnqueueInput). One worker at a time owns a
-- session: it takes the session's lease (AcquireLease), whose growing fence token every later
-- operation must show, claims the next input (ClaimNext), runs a turn of the agent for it
-- (GetOrCreateTurn, BeginTurn, SaveTurnOutput) and ends it (CommitTurn, WaitForInterrupt,
-- RetryTurnAt, DeadTurn). Crashed workers are made up for by RecoverExpiredInputs.
--
-- Modules.
--   Base: Boolean tests on ℕ and String, strings.TrimSpace, int64 as a bit pattern, maps as
--     association lists, the result type for Go's (value, error), and what stands for code that
--     is not in the repository.
--   SessionRuntime.Models: internal/aigc/sessionruntime/models.go and store.go, the enumerations
--     (Status), the rows and arguments (Records), the typed inputs with their identities and
--     encodeInput with its validation (Inputs), their constructors and WithContextMessageSeq
--     (Building; NewResumeRequested is in Approval.Outboxes), and DecodeInput (Decoding). RoundTrip is
--     about the two encodings together; Tests runs them.
--   SessionRuntime.Store: internal/aigc/sessionruntime/memory_store.go and terminal_event.go. State is
--     the struct MemoryStore and its pure helpers; Fencing is validateFenceLocked, claimedInputLocked
--     and turnAndClaimedInputLocked; Leases is AcquireLease, RenewLease, HandoffLease and
--     ReleaseLease; Lane is EnqueueInput, MarkInputRunning, RetryInput, ResolveInput and DeadInput;
--     Claims is ClaimNext; Recovery is RecoverExpiredInputs; Turns is GetOrCreateTurn, BeginTurn and
--     the two FreezeTurnContext methods; Outputs is SaveTurnCheckpoint and SaveTurnOutput; Endings is
--     WaitForInterrupt, RetryTurnAt, RetryTurn, CommitTurn and DeadTurn; Continuations and Commands are
--     the continuations of approvals, from RequestContinuation to GetCommand; Runnable is the reads
--     and ListRunnableSessions.
--   SessionRuntime.Steps: the operations as one type and what a sequence of them does to a store.
--   SessionRuntime.Lifecycle: how the rows develop in every step, the claim, and the invariant of a
--     session's lane. Fences: leases and fence tokens, also after a release. Continuation: the operations on continuations
--     as steps of their own, how a continuation develops, who may execute it, and its commands (Tests
--     runs them). Listing: ListRunnableSessions (Store.Runnable) and its heads. Entry: EnqueueInput
--     over again (Replay) and with an input bound to a message (Bound; Tests runs it). Scenarios:
--     concrete runs, and the theorems at them.
--   Billing: internal/aigc/billing, the ledger of points that generation charges and refunds. Models
--     is models.go, Store is memory_store.go with EnsureAccount, Credit, Charge and Refund over
--     mutate, and CheckAvailablePoints of store.go. Balance, Replay, Refunds, RefundSteps, Runs and
--     Ledger are about what a mutation does to an account, a request sent again, the refunds of a
--     charge, and the balances against the transactions; Tests runs them.
--   Generation: internal/aigc/generation. StateMachine is state_machine.go with the statuses of
--     models.go; Paths and JobPaths are about sequences of its transitions. Models is the records as
--     far as barrier.go uses them, Barrier and Cost the helpers of barrier.go, and Finalize the
--     transaction that BatchBarrier.TryFinalize runs; Signals, Finalizing and Signalling are about
--     what it does to a batch and when it signals. Tests and BarrierTests run them.
--   Events: internal/aigc/events, the log of session events that the event stream reads. Models is
--     models.go, Store is memory_store.go, Relay is the loop of TailRelay in relay.go, and Hub its
--     MemoryNotificationHub. Log, Puts, Runs and Once are about appends, Tailing and Numbers about
--     Tail and the numbers of the rows, Delivery, Polling and Deliveries about what the relay hands
--     on; Tests runs them.
--   Approval: internal/aigc/approval, the human reviews of artifacts. Models and Requests are
--     models.go, Commands, Decisions and Outboxes are store.go, Candidates is candidate_batch.go. Of
--     memory_store.go, State is the struct with its reads and the outbox, Store is Create,
--     CreateCandidateApprovalBatch, Decide and Close, Modes is BindInterruptMapping and
--     SwitchToDurableFallback, Relaying is MarkOutboxPublished and MarkOutboxFailed, Listing is
--     ListOutbox. Steps is the operations as one type; Announced, Effects and Causes say what each
--     of them changes. Evolution and Finality are about how an approval develops, Primary about the primary
--     reviews of a session, Ledger, Recorded, Records, Fallbacks and Whole about the rows that a
--     decision leaves, Again and Replay about a decision sent again; Tests runs them.
--
-- How the code is read. A method that locks the store is one function from a store to a store, so a
-- sequence of operations is any interleaving of callers. An operation returns an error or the new
-- store with its value; an error of the code leaves the store as it was, and ClaimNext alone may
-- change the store (it buries exhausted inputs) and fail. Each operation gets the readings of the
-- clock it makes. A time is a natural number of nanoseconds since Go's zero time, and adding to one
-- does not overflow. An int64 is its bit pattern, a natural number below 2 ^ 64: Base.Word adds and
-- compares the way Go does. A pointer that may be nil is an Option; a copy of a record is the record.
-- A missing key of a Go map is written out. A nil receiver is not modelled.
--
-- Fuel. The loop of ClaimNext has as fuel one more than the number of inputs: each round but the last
-- buries an input for good. The binary search of Tail has fuel for every row, and halves what is left.
--
-- Parameters. encoding/json and crypto/sha256 are the record Codec: whether a text is valid JSON
-- (json.Valid), what it decodes to, which can fail for valid JSON (1e999), printing an object, and the
-- hex digest of a text. Reader is json.Unmarshal into a struct with named fields, and ReaderLaws says
-- what encoding/json documents, that it reads back the object that json.Marshal wrote.
--
-- Not modelled: the PostgreSQL, Redis and HTTP layers, the LLM and provider clients, the frontend, and
-- the parts of internal/aigc that are not named above.
mod Base
pub mod SessionRuntime
pub mod Billing
pub mod Generation
pub mod Events
pub mod Approval
