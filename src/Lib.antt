-- ===== src/Lib.antt =====
-- A verification library for ClipForge (src/clipforge), a pipeline that turns long recordings
-- into short clips and publishes them. A post is planned on a calendar and driven through a
-- platform's upload by the publishing engine (src/clipforge/publish); the long-running work is a
-- chain of jobs that worker processes claim from a queue (src/clipforge/worker); users, posts and
-- jobs are rows that a tenant-scoped store holds behind units of work (src/clipforge/store).
--
-- Base holds what the modules share: numbers, lists, a stable sort, insertion-ordered
-- dictionaries, JSON values, and results with an explicit state. Instants are microseconds since
-- an epoch, as natural numbers, and `now` is an argument of every operation that reads the clock.
-- A method that mutates an object is a function from a state to a result and a new state; an
-- exception is a value, and the state it leaves behind is kept.
--
-- Store/ models src/clipforge/store/memory.py: Store/Unit is `MemoryUnitOfWork` with its undo
-- log, for rows of any record class; Store/Repository is `_MemoryRepository` over any table that
-- has one key column (Schema); Store/Jobs is `_MemoryJobs`, the queue, over the rows of
-- `JobRecord`. The loops run over the finite lists of rows, so no fuel is needed. The per-table
-- repositories besides the queue, and the lookups of the queue that only read by state, are not
-- modelled.
--
-- Worker/ models src/clipforge/worker: Worker/Types is types.py, Worker/Chain is chain.py,
-- Worker/Runtime is runtime.py and Worker/Monitor is monitor.py. A worker calls the queue only
-- inside `transaction`, the unit of work of Store. What a handler does is given as a sequence of
-- events, which are beats of the heartbeat thread and changes of the tables by anybody, and as
-- the outcome it ends with, so every interleaving of the heartbeat with the handler and with
-- other workers is such a sequence. Ids from `uuid4`, random draws and measured times are
-- arguments. Not modelled: the endless loop of `run`, signals, and the thread that beats on a
-- timer; a worker here is not told to stop between two jobs.
--
-- Publish/ models src/clipforge/publish: Publish/Types is types.py, Publish/Codes and
-- Publish/Retry are retry.py, and Publish/Engine with Publish/Settling is one pass of a post in
-- engine.py (`_run_post`, `_handle_failure`, `_escalate`, `release`). The loop of a pass counts
-- down the requests that are left, so its fuel is exactly the limit of the source. An adapter, an
-- account's credentials and the refresher are interfaces, and the network is a function from the
-- number of a request to its reply; a transport that raises anything but a timeout or a transport
-- error is not modelled. The digest that spreads retries, the time to midnight in Los Angeles and
-- the parsing of a header's number are arguments; the number may go forward, go back, or be one
-- that no date takes, on which a pass raises.
--
-- Publish/Figures is the table of limits.py and Publish/Limits the rest of it with `caption_for`
-- of types.py, and Publish/Calendar is `ContentCalendar` of calendar.py with the `claim` of
-- engine.py. The index of an account holds the post objects themselves.
-- Publish/Calendar/Conflicts is `between`, `occupancy` and `conflicts`, without their sentences
-- for people. The search for a free slot has one turn of fuel for every microsecond up to its
-- limit. The posts that a claim leases are given as values; the engine and the calendar sharing
-- one object is not modelled. Time zones enter as functions from instants to local days.
--
-- Publish/Booking is the planning of engine.py: `schedule` with its checks, `cancel`,
-- `cancel_series` and `reschedule`, and Publish/Booking/Batch is `schedule_bulk`,
-- `schedule_series` and `extend_series`. The instants at which a rule fires are an argument, as
-- are fresh ids and the idempotency key, and one call reads the clock once. Problems are values
-- where the source has texts: those that a batch takes for the slot's are the ones whose texts
-- have the words that it looks for. The index of an account holds the posts themselves, so a
-- cancelled post is changed there too.
--
-- Auth/Types, Auth/Passwords, Auth/Tokens, Auth/Totp and Auth/Store are types.py, passwords.py,
-- tokens.py, totp.py and the `MemoryAuthStore` of store.py in src/clipforge/auth; Auth/Core has
-- the state and the helpers of service.py, and Auth/Sessions, Auth/Revoking, Auth/Mfa,
-- Auth/Challenge, Auth/Login, Auth/Accounts, Auth/Credentials and Auth/Deletion its flows and
-- those of mfa.py. A flow is an action on the store that may raise an error; what it wrote before
-- it raised stays. The clock is read once for a flow. Random draws are numbered, and what is
-- drawn is a parameter, as are the mail sender, the provisioner of a workspace, PyJWT, Argon2,
-- bcrypt, SHA-256, the MAC and Unicode. A code with digits that are not ASCII, on which
-- `hmac.compare_digest` raises a TypeError, is refused in the model. Auth/History takes every
-- public method as a call and follows one session over histories of calls. Calls are not
-- interleaved: the race of a refresh with a revocation is a finding.
--
-- Not modelled: acquisition, transcription, vision, rendering, captions, hooks and the rest of
-- the media pipeline, whose results come from models and external programs; the HTTP layer and
-- the demos; the SQL side of the store, whose behaviour is the database's; storage, analytics and
-- the channel planners.
pub mod Base
pub mod Store
pub mod Auth
pub mod Worker
pub mod Publish
