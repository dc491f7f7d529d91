-- ===== src/Lib.antt =====
-- Tally: sourced, inspectable decisions on demurrage invoices (Python).
--
-- An invoice is taken in, its claims are extracted by leased tasks, the events before it are
-- reconstructed from verified memory, the clause that governs it is chosen, every billed day is
-- judged, a recommendation is made, an approval seals it, and a draft of it is sent. Each part is
-- modelled in its own tree:
--   Intake          src/core/intake.py: states, allowed transitions, aggregate status, fingerprint,
--                   and the envelope of a file (Envelope)
--   Tables          the rows of the tables of one tenant (Db); a status is the text that is stored
--   Store           src/platform/intake_tasks.py: the statements that the transactions share
--   Events          the numbering of an invoice's events, and what a transaction writes of them
--   Ingestion       src/platform/intake_repository.py: the requests to receive an invoice, by their
--                   idempotency key (Requests), and the transaction that opens it (Finalize)
--   Tasks           src/platform/intake_tasks.py: the transactions that claim, complete, fail and
--                   retry an extraction task, each a function on Db; Tasks.Steps makes them a step
--                   relation, and Run is any sequence of them
--   Claims          src/core/intake_claims.py: Anchor and Located (locate_pdf_anchor), Values
--                   (_normalize_claim), Validate (validate_extracted_claims; an exception that
--                   it does not catch is an error)
--   Seal            src/core/seal_manifest.py (Manifest) and
--                   src/platform/authority_seal_repository.py (Inputs, Approve)
--   System          the transactions of Ingestion, Tasks, Seal and Correspondence over one Db, as
--                   one relation (Change), and any sequence of them (History)
--   Reconstruction  src/core/reconstruction.py: Events (validate_events), Days (the chargeable
--                   window, the billed days, coverage, the terminal state), Access
--                   (verify_access_snapshot)
--   Rule            src/core/applicable_rule.py: Candidate (validate_candidate), Decide
--                   (decide_applicable_rule, build_hero_query_text)
--   Judgment        src/core/judgment.py: judge_day, resolve_recommendation,
--                   recommendation_fingerprint
--   Correspondence  src/core/correspondence.py: evaluate_send_gates (Gates), the fact pack and the
--                   locked fields (FactPack); src/platform/correspondence_repository.py: the
--                   transactions of a draft (Draft) and of a send (Send), and the send under
--                   retries (Retried); src/platform/send_gates.py (Fresh);
--                   src/external/controlled_mail.py (Provider)
--   Database        src/external/db.py: run_with_retry
--   Clerk           src/core/clerk_steps.py (check_timing) and src/core/verdict.py
-- Prelude holds what they share. Functions, fields and constructors keep the source's names, in
-- lower case where a name there is a constant.
--
-- Numbers. Amounts are integers in minor units (ℤ), as in the source, whose integers are not
-- bounded. A date is its ordinal. In Tasks a time is a count of microseconds; in Reconstruction it
-- is a Datetime, a wall clock and an offset, shifted by one day so that no offset is negative. No
-- function needs fuel: every loop of these parts is a structural recursion on a list, or on the
-- retries that are left.
--
-- Parameters. Python (renderings of numbers and dates, prefixes and SHA-256 of texts and of
-- canonical JSON), Calendar (ISO texts and time zones), Dates (the date parsers of the clerk),
-- Cases (str.lower and str.upper), Readers and Floats (what the checks of the claims take from
-- Python and dateutil), the ids that uuid4 returns, the value of now() and the rows that another
-- transaction has locked. A Decimal is finite or NaN; one with more than 28 digits, which rounds,
-- is out of scope. Transactions are serializable in the database, so each is one step, and one
-- that raises leaves the tables as they were; the provider of a send is not a table, so it is kept
-- where the transaction raises. Of the unique indexes of the tables, those that ON CONFLICT names
-- are modelled, that of the active approvals, and those of the reservations, the invoices and
-- their sources. A SELECT with LIMIT 1 and no order takes the first row here.
--
-- Not modelled: the HTTP layer, the adapters of cloud services, the user interfaces, the scripts, the
-- writing and the checking of a draft's prose (the transaction of a draft takes their results), and
-- the repositories and verifiers of the parts above that are not named.
pub mod Prelude
mod Samples
pub mod Reconstruction
pub mod Rule
pub mod Judgment
pub mod Intake
pub mod Database
pub mod Tables
pub mod Store
pub mod Events
pub mod Tasks
pub mod Seal
pub mod Ingestion
pub mod System
pub mod Claims
pub mod Correspondence
pub mod Clerk
