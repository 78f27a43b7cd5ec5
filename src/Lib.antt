-- ===== src/Lib.antt =====
-- Xportra: the export-compliance platform's domain layer (xportra/domain).
--
-- The program. An exporter's tenant keeps shipments. A compliance workflow takes a case of a
-- shipment through its information, an analysis by the reasoning application, a review and its
-- finalization. Evidence for an analysis is retrieved on two paths, semantic and lexical, joined,
-- ranked and selected under a budget. The cases that result are summarized, rated and turned into
-- recommended actions. All of it is plain code over immutable records, with exceptions for refused
-- calls.
--
-- How it is modelled. A frozen dataclass is a record, `replace` a record update, and a method a
-- function that returns `Result Error A`: an exception is `err` with its class and cause, told
-- apart by message (Errors.antt). An argument whose type the code checks is an `Any A`: `typed a`
-- for a value of the type, `untyped` for any other. A UUID is a number, and its order and that of
-- its text are the numbers' order. A text is a list of code points, with Python's white space
-- (Base/Text.antt). A finite float is a whole multiple of the least positive float
-- (Evidence/Model.antt). `sorted` is a stable insertion sort (Base/Sorting.antt), and tuples
-- compare lexicographically (Base/Keys.antt).
--
-- Base.antt and its children: names, tests, lists, results, text, integers, sorting.
-- Shipment.antt: xportra/domain/shipment.py. ShipmentService.create, update_profile, mark_bound,
--   mark_locked; Shipment/Records.antt: the record reader and writer. Facts.antt, Lifecycle.antt
--   and RoundTrip.antt have the theorems.
-- Workflow/Model.antt, Workflow/Service.antt: xportra/domain/compliance_workflow.py, with the
--   operations of ComplianceWorkflowService under their names.
-- Workflow/Readiness.antt: xportra/domain/assessment_readiness.py, the gate of `finalize`.
-- Workflow/Intake.antt: xportra/domain/shipment_intake.py, which binds shipments to workflows and
--   hands evidence over to them.
-- Workflow/Calls.antt: a call as data, and the steps. Steps.antt: every call that succeeds does
--   one. Closing.antt: a call on a finalized workflow. Invariant.antt and History.antt: sequences of calls. Gate.antt, Finalize.antt: when the
--   gate opens. Pipeline.antt: the way from an analysis to the package.
-- Evidence/Chunking.antt: xportra/domain/evidence_chunking.py. Segments.antt and Paragraphs.antt
--   are about paragraphs, Pieces.antt about the split of an oversized one, and Coverage.antt and
--   Chunked.antt about the chunks of a document, Refusals.antt about the documents refused.
-- Evidence/Model.antt: results and scopes of xportra/domain/evidence_retrieval.py.
-- Evidence/Hybrid.antt, Evidence/Retrieval.antt: xportra/domain/evidence_hybrid.py. Union.antt,
--   Kept.antt, Collapse.antt and Safety.antt follow a result through it.
-- Evidence/Ranking.antt: xportra/domain/evidence_ranking.py; Order.antt and Policy.antt.
-- Evidence/Context.antt: xportra/domain/evidence_context.py; Selection.antt and Limits.antt.
--   Flow.antt composes retrieval, ranking and selection.
-- Answer/Prompt.antt: xportra/domain/evidence_prompt.py, which makes a prompt of a selection.
--   Answer/Citations.antt, Answer/Validator.antt: xportra/domain/answer_validation.py, which reads
--   the citations of an answer against its prompt. Labels.antt, Extraction.antt, Partition.antt
--   and Classified.antt are about labels and references; Composition.antt and Gaps.antt follow a selection from the
--   selector through the builder to the validator.
-- Upload/Files.antt, Keys.antt, Images.antt, Pdf.antt, Docx.antt, Extract.antt:
--   xportra/domain/evidence_upload.py, in the order of that file. Checks.antt, KeySafety.antt,
--   Bounds.antt, Literals.antt and Clean.antt have the theorems.
-- Workflow/Projection.antt: xportra/domain/workflow_history.py, a view over a workflow;
--   Narrative.antt and Views.antt have the theorems, up to the view of a finalized workflow.
-- Decision/Cases.antt, Decision/Services.antt: xportra/domain/ingestion.py, the services that
--   summarize compliance cases, rate their risk and recommend actions. Standing.antt names
--   the standings of a case; Listing.antt, Counts.antt and Advice.antt have the theorems.
-- Decision/Records.antt, Decision/Assessment.antt, Decision/Building.antt: the services of the same file that assess a
--   requirement against evidence and build its case; Decision/Sufficiency.antt:
--   xportra/domain/evidence_sufficiency.py, the state of that evidence. Weighing.antt and
--   Assembly.antt compose them, up to the check that the services over cases make.
-- Decision/Readiness.antt, Decision/Plan.antt, Decision/Requests.antt:
--   ComplianceCaseReadinessService, EvidenceRequirementPlanService and
--   EvidenceRetrievalRequestService of ingestion.py; Balance.antt, Information.antt,
--   Planning.antt and Requesting.antt have the theorems, the last of the three together.
-- The modules Tests, ChunkTests and AssessTests run the operations on small inputs.
--
-- Parameters. The reasoning application, the semantic retriever, the lexical index, the split of a
-- text into terms, and the digest and the identity of a chunk are arguments of the definitions that
-- call them, and nothing is assumed of them. So are Python's `str.lower`, the names in a zip
-- archive, the document in it, the XML parser, zlib, SHA-256, uuid5 and a repository of
-- assessments. The reader and the printer of identities are arguments too; the round trip assumes
-- that the one reads back what the other prints. Which characters are decimal digits is an
-- argument; what is said of the extraction assumes that the opening bracket is none. The 32
-- characters of a UUID are an argument; that keys name their parts assumes their number, and that
-- no two UUIDs have the same.
--
-- Bounds. Every loop is over a list, except the split of an oversized paragraph, which runs on
-- fuel: the paragraph's length, as each pass moves the cursor forward by one or more; and the loops
-- over PNG chunks and JPEG segments, which move on by two bytes or more and have one more than the
-- number of bytes.
--
-- Not modelled: the HTTP interface, the database, the clients of external services, calls of
-- language models, the front end, and, of xportra/domain, the rest of ingestion, the guard against
-- numeric confidence, the indexing of evidence, traces and conversations.
pub mod Base
pub mod Errors
pub mod Shipment
pub mod Workflow
pub mod Evidence
pub mod Answer
pub mod Upload
pub mod Decision
