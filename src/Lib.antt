-- ===== src/Lib.antt =====
-- The core of a service in which the members of a company share reporting cases and knowledge
-- documents. Its parts, by paths from the repository's root:
--   * apps/api/src/apbra_api/domain.py: roles, actors, access levels and errors, in Domain;
--   * apps/api/src/apbra_api/persistence.py: the tables, queries and writes of `ApplicationSession`,
--     in Store (Rows, Query, Write, Companies), which the services of the next three parts call;
--   * apps/api/src/apbra_api/application.py, `CompanyService`, `ProfileService`, `InvitationService` and
--     `MembershipService`: who founds and who belongs to a company, in Tenancy (Company, Manage,
--     Memberships, Invitations; proofs in Founding, OneCompany, Owners, Acceptance);
--   * apps/api/src/apbra_api/authorization.py and `CaseService` of application.py: who may see and
--     edit a case, in Cases (Authorization, Service; proofs in Resolution, Access, Revocation,
--     SelfGrant, Versions, Creation);
--   * `ConversationService` of application.py, with `clarification_state`, `start_refinement_cycle` and
--     `create_interpretation` of `AcceptanceService`: the events of a case, its clarification cycles and
--     the rounds they may use, in Conversation (Answers, Events, Cycles, Interpretations; proofs in
--     Changes, CycleChanges, CycleRows, Runs, Sequences, Numbers, Rounds, Recorded, Retry, Refinement),
--     on the tables of Store.ConversationRows and the writes of Store.Conversations;
--   * apps/api/src/apbra_api/generation.py, the attempts of `GenerationService`, with their tables and
--     queries of persistence.py: in Generation (Rows, Query, Eligible, Earlier, Start, Finish, Access;
--     proofs in Written, FinishWritten, Active, Ends, Ending). `start` commits in its middle: it is `begin_generation` up to the
--     commit and `finish_generation` after it, which other calls may come between;
--   * apps/api/src/apbra_api/knowledge_lifecycle.py: the journal of a knowledge document, in
--     Knowledge.Lifecycle (Types, Shapes, Replay, Commands; proofs in Begin, Observe, History and the
--     modules they rest on);
--   * apps/api/src/apbra_api/knowledge_dispatch.py, with what it uses of knowledge_documents.py and of
--     tenant_settings.py: the ledger of what is sent to a provider, in Knowledge.Dispatch (Types,
--     Summary, Service, Claims; proofs in Claimed, Sends, Repeat, Receipts);
--   * apps/api/src/apbra_api/knowledge_documents.py: the rows in which the journals are stored and the
--     commands that extend them, in Knowledge.Documents (Journal, Drafts, Apply; proofs in Lookup,
--     Rows, Written, Stored, Refines, Repeat), which uses the lifecycle and the rows of the dispatch ledger;
--   * apps/api/src/apbra_api/foundry_report_runtime.py, with the records of config.py and
--     model_provider.py that it holds: the approval of a report and the reservations that spend it, in
--     Foundry.Report (Types, Approval, Reservations; proofs in Budget, Sound, Stages, Ended);
--   * the frames of the private channel in foundry_memory_handoff.py and foundry_report_runtime.py of
--     the same folder, in Foundry.Frames (proofs in RoundTrip, Keys).
-- Prelude holds what they share: results of code that may raise, lists with native lengths, Boolean
-- tests and texts. The modules called Tests and CompanyTests run the definitions on concrete stores,
-- with the data of Store.Samples and the encodings of Knowledge.Documents.Codes.
--
-- A function of the source is a definition of the same name, without a leading underscore; the
-- `create` of `CompanyService` and the `update` of `ProfileService` are `create_company` and
-- `update_profile`. A branch or a condition of a longer function has a name of its own. A database
-- session is the record `Store`, `DispatchStore` for the dispatch ledger or `GenerationStore` for
-- generation, with one list of rows for each table. A service takes the store and returns an error or a value with the next store, since a
-- transaction that raises is rolled back. Each call is one step, as if transactions followed each
-- other; a lock changes nothing. `created_at` and `sequence` order the rows as the lists do.
-- Identifiers, times and tokens that the source draws are arguments. A unique constraint is a check of
-- the insert that may meet it; foreign keys are left aside, and a theorem that needs one says so.
-- Loops are structural recursion on the lists that the source walks, so no fuel is needed.
--
-- SHA-256, UTF-8, Unicode normalization and categories, the text of a UUID, JSON, decimal arithmetic,
-- the clock and the planning of the provider are parameters, as are, in the record `Analysis`, the
-- session that the model provider and the bridge make of a case, and the evidence they read, and, in
-- `Pipeline` and `ArtifactObjects`, the contents and digests of a payload, the checks of a design's
-- JSON and the storage of artifacts. So are `sha256_text` and `canonical_payload`, which only call
-- them. The theorems ask of them only that decoding undoes
-- encoding and that texts of UUIDs differ (`IsFaithful`), and that decimal arithmetic under
-- ROUND_CEILING rounds up (`IsCeiling`).
--
-- Not modelled: the encodings of results as JSON; checks that a Python value has its declared type,
-- except the range of a UUID; evidence, the confirmation of an interpretation, automatic designs and
-- the intake of designs, records of system errors, model and artifact providers, later versions of
-- settings, the receiver process of the foundry runtime and the state that it loads, start-up, the
-- HTTP interface and the web client, which read and write other tables or are input and output.
pub mod Prelude
pub mod Domain
pub mod Store
pub mod Tenancy
pub mod Cases
pub mod Knowledge
pub mod Foundry
pub mod Conversation
pub mod Generation
