-- ===== src/Lib.antt =====
-- Verification of tomo_core, the core of a personal assistant that is reached over Telegram
-- (tomo_core/src/tomo_core).
--
-- Parts. `Common` holds what all parts use: tests on numbers, the `Result` of code that raises, the
-- texts of Python, a SQLite table as the list of its rows with the statements that the stores run on
-- it (Common/Tables), and how tables change row by row (Common/Evolve).
--
-- `Cron` is the scheduler: Cron/Fields is the parsing of cron expressions and Cron/Schedule the
-- occurrences of a schedule (cron_schedule.py, and ScheduleSpec of cron_models.py). Cron/Rows are the
-- tables of the ledger, and Cron/Store its operations, each named as the method of CronStore in
-- cron_store.py that it models: Store/Parts the private helpers, Store/Jobs the owner's changes,
-- Store/Mutations the idempotent mutations, Store/Claim the claiming of due runs, Store/Runs what a
-- worker does with a run, Store/Deliveries the sending of output, Store/Recovery what becomes of
-- expired leases. Cron/Moves gives the life of a run and of a delivery as diagrams over their statuses and shows that each operation follows them;
-- Cron/Ledger puts the operations together as the steps of a state machine; Cron/Laws is what single
-- operations promise. The worker of cron_service.py, the tools and the HTTP API call the same store,
-- so a history of the ledger interleaves their calls in any order.
--
-- `Peer` is the exchange of requests between two owners' assistants: Peer/Rows the states of
-- peer_models.py and the tables of peer_store.py, Peer/Policy the authorization policy of
-- peer_policy.py, and Peer/Store the operations of PeerStore: Store/Relations the handles,
-- relationships and grants, Store/Requests the submission of requests, Store/Responses the fence of a claim
-- and the answer, Store/Confirmations and Store/Notices the recipient's confirmation, Store/Claims the
-- claims of the workers, Store/Reads what owners read and what is pruned. The policy is asked where
-- a confirmation is decided, at the fence of a claim and when a claim is finished. Peer/Laws is what
-- these operations promise; Peer/Laws/Over has the sequences of calls on relationships that may follow a
-- revocation. Arguments are as the source's validation has accepted them.
--
-- `Onboarding` is how Telegram chats reach the assistant (onboarding_store.py, class
-- TelegramOnboardingStore): Onboarding/Ids the texts of ids, links and error codes, Onboarding/Rows the
-- tables that `_init_db` creates, and Onboarding/Store the operations, each named as its method:
-- Store/Tokens the install links, installations and the deletion of an owner, Store/Turns how messages
-- are taken in and scheduled turns reserved, Store/Claim how a quiet burst of messages becomes a
-- generation, Store/Generations how generations end and what is recovered after a restart,
-- Store/Deliveries the texts and reactions that a generation sends, Store/Control the queue of control
-- updates. Onboarding/Sound is what ties the tables together, and that each operation keeps it;
-- Onboarding/Kept ties a message that is not answered to the burst of its chat's turn, and
-- Onboarding/Named a turn to the generation that it names;
-- Onboarding/History is the store as a state machine, with the lives of its rows as diagrams over their
-- statuses (History/Moves) and the abstract view of who has the floor in a chat (History/Floor);
-- Onboarding/Laws is what single operations promise. The router of telegram_router.py, its workers and
-- the senders call the same store, so a history interleaves their calls in any order.
--
-- Correspondence. An operation that runs in one write transaction is a function from the tables to
-- its answer and the tables; one that may raise gives a `Result`, and an error brings no tables, since
-- the transaction is rolled back. SQLite's unique constraints are tested where rows are inserted. The
-- ids and lease tokens that the source draws with uuid4 and secrets are arguments, and so is the
-- clock. A datetime is the number of microseconds since 0001-01-01 UTC and a timedelta a number of
-- microseconds; that the year 9999 ends is not modelled. The times of the onboarding store, which are
-- floating-point seconds, are whole microseconds too, except for its tokens and installations, which
-- have whole seconds; its delays are powers of two that stay within what the source can represent.
-- Rows that an ORDER BY does not tell apart, whose order SQL leaves open, come in the order of the
-- table. Time zones, digests, Python's tables of Unicode and the equality of dataclasses are parameters.
-- Chats are numbers to Telegram, so their ids have no colon; a history of the onboarding store assumes
-- it of the chats that messages arrive in. The deletion of an owner is not a step of such a history.
--
-- Fuel. The search for the next minute has the source's own bound of five years. The loop of
-- catch_up has a step for each microsecond between its bounds, and each occurrence is later than the
-- one before it. The loop of claim_delivery has a step for each waiting delivery and one more, and
-- each round but the last suppresses one of them. A number is printed with a step for each digit, and
-- it has at most as many digits as its value, or one.
--
-- Not modelled: the schema migrations and the JSON in the columns of the stores, the history of
-- cron_store.py, the export and import of records and some lookups of peer_store.py; the other
-- modules of the package, which are I/O around models, tools and messengers or remain to be done
-- (the manifest lists them).
pub mod Common
pub mod Cron
pub mod Onboarding
pub mod Peer
