-- ===== src/Errors.antt =====
-- The exceptions of xportra/domain, told apart by class and message, and the tenant context
-- (xportra/domain/errors.py, xportra/persistence/tenant.py).
use xportra_ai.Base.{ℕ, Any, Result, expect}

-- A UUID is a 128-bit number: Python orders UUIDs by it, and their text in the same order.
abbrev pub Uuid : Type 0
Uuid = ℕ

pub data Fact : Type 0 where
  product origin_country destination_country quantity unit shipment_date status : Fact
  shipment_identity case_identity tenant_identity : Fact

pub data ShipmentFault : Type 0 where
  not_uuid : Fact → ShipmentFault
  blank_text : Fact → ShipmentFault
  not_text : Fact → ShipmentFault
  read_only wrong_status other_tenant malformed_status shipment_required : ShipmentFault
  record_required : ShipmentFault
  missing_key : Fact → ShipmentFault
  malformed_identity : Fact → ShipmentFault

pub data WorkflowFault : Type 0 where
  case_required shipment_not_uuid workflow_required other_tenant malformed_state : WorkflowFault
  state_forbids illegal_move : WorkflowFault
  result_other_case result_other_tenant : WorkflowFault
  requirements_not_list no_requirement malformed_requirement duplicate_requirement : WorkflowFault
  evidence_not_list no_evidence malformed_evidence : WorkflowFault
  not_ready result_required : WorkflowFault

pub data IntakeFault : Type 0 where
  not_uuid workflow_required shipment_required evidence_required : IntakeFault
  workflow_other_tenant shipment_other_tenant shipment_other_case : IntakeFault
  evidence_other_tenant evidence_other_case : IntakeFault
  shipment_switched late_binding : IntakeFault

pub data ChunkFault : Type 0 where
  other_tenant malformed_document content_required source_required : ChunkFault
  unsupported_source_type malformed_version malformed_chunk : ChunkFault

pub data EvidenceFault : Type 0 where
  malformed_score malformed_sources inconsistent_semantic inconsistent_lexical : EvidenceFault
  malformed_top_k malformed_candidates malformed_candidate duplicate_chunk : EvidenceFault
  budget_required malformed_budget malformed_ranked malformed_content other_tenant : EvidenceFault
  malformed_position not_ascending over_budget : EvidenceFault
  malformed_evidence malformed_output malformed_result query_required : EvidenceFault
  unsupported_mode scope_required no_terms : EvidenceFault

-- The causes of a `VectorStoreError`.
pub data StoreFault : Type 0 where
  lexical_failed cross_tenant out_of_scope : StoreFault

pub data CaseFault : Type 0 where
  tenant_required cases_required report_required other_tenant requirement_required : CaseFault
  invalid_applicability invalid_assessment : CaseFault
  plan_required malformed_item malformed_identity malformed_kind other_tenant_item : CaseFault

pub data PromptFault : Type 0 where
  config_required selection_required need_required : PromptFault
  duplicate_label inconsistent_rank many_tenants : PromptFault

pub data AnswerFault : Type 0 where
  duplicate_label inconsistent_rank label_drift many_tenants invalid_citation : AnswerFault
  answer_required : AnswerFault

pub data UploadFault : Type 0 where
  not_bytes empty_file too_large : UploadFault
  name_required malformed_name separator_in_name long_name : UploadFault
  type_required unsupported_type extension_differs content_differs : UploadFault
  malformed_key unsupported_kind unreadable no_text too_much_text : UploadFault

pub data HistoryFault : Type 0 where
  workflow_required malformed_state other_tenant : HistoryFault
  result_required result_other_tenant result_other_case no_round other_round : HistoryFault
  package_required package_other_workflow package_other_tenant package_other_case : HistoryFault

pub data AssessmentFault : Type 0 where
  malformed_applicability malformed_identifiers invalid_outcome : AssessmentFault
  malformed_evidence evidence_other_tenant : AssessmentFault
  malformed_requirement malformed_assessment malformed_count : AssessmentFault
  requirement_differs text_required assessment_differs : AssessmentFault

pub data Error : Type 0 where
  prompt : PromptFault → Error
  answer : AnswerFault → Error
  upload : UploadFault → Error
  history : HistoryFault → Error
  assessment : AssessmentFault → Error
  tenant_context_required : Error
  shipment : ShipmentFault → Error
  workflow : WorkflowFault → Error
  intake : IntakeFault → Error
  chunk : ChunkFault → Error
  evidence : EvidenceFault → Error
  store : StoreFault → Error
  summary : CaseFault → Error

-- `require_tenant_context`, with the identity that the caller then reads from it. A
-- `TenantContext` holds one UUID and nothing else.
abbrev pub require_tenant_context : Any Uuid → Result Error Uuid
require_tenant_context t = expect t tenant_context_required
