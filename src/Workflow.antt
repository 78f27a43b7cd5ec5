-- ===== src/Workflow.antt =====
-- The compliance user workflow (xportra/domain/compliance_workflow.py): its states, its
-- transition table and the operations of `ComplianceWorkflowService`.
pub mod Model
pub mod Readiness
pub mod Service
pub mod Intake
pub mod Calls
pub mod Steps
pub mod Gate
pub mod Finalize
pub mod Invariant
pub mod Closing
pub mod History
pub mod Pipeline
pub mod Projection
pub mod Narrative
pub mod Views
mod Tests
