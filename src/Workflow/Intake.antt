-- ===== src/Workflow/Intake.antt =====
-- The handoff of shipments and evidence to a workflow (xportra/domain/shipment_intake.py).
use xportra_ai.Base.{
  Option, none, some, [], ◌∷◌, Any, typed, Result, ok, ◌>>=◌, ◌>>◌, raise_unless, expect, ◌==◌,
}
use xportra_ai.Errors.{
  Uuid, Error, intake, not_uuid, workflow_required, shipment_required, evidence_required,
  workflow_other_tenant, shipment_other_tenant, shipment_other_case, evidence_other_tenant,
  evidence_other_case, shipment_switched, late_binding, require_tenant_context,
}
use xportra_ai.Workflow.Model.{Workflow, created, information_provided, evidence_pending, member}
use xportra_ai.Workflow.Service.{supply_evidence}

pub record ShipmentReference : Type 0 where
  pub tenant_id : Uuid
  pub shipment_id : Uuid
  pub case_id : Uuid

pub record SuppliedEvidenceReference : Type 0 where
  pub tenant_id : Uuid
  pub evidence_id : Uuid
  pub case_id : Uuid
  pub requirement_id : Option Uuid

unfoldable pub register_shipment : Any Uuid → Any Uuid → Any Uuid → Result Error ShipmentReference
register_shipment tenant shipment_id case_id = do
  tenant_uuid ← require_tenant_context tenant
  sid ← expect shipment_id (intake not_uuid)
  cid ← expect case_id (intake not_uuid)
  ok (record { tenant_id = tenant_uuid; shipment_id = sid; case_id = cid })

-- The end of `bind_shipment`: a workflow that has a shipment keeps it, another takes this one.
abbrev pub attach : Option Uuid → Workflow → Uuid → Result Error Workflow
attach (some old) w sid = do raise_unless (old == sid) (intake shipment_switched); ok w
attach none w sid = do
  raise_unless (member w.state (created ∷ information_provided ∷ evidence_pending ∷ []))
      (intake late_binding)
  ok (record w { shipment_id = some sid })

unfoldable pub bind_shipment :
    Any Workflow → Any ShipmentReference → Any Uuid → Result Error Workflow
bind_shipment w s tenant = do
  tenant_uuid ← require_tenant_context tenant
  w' ← expect w (intake workflow_required)
  s' ← expect s (intake shipment_required)
  raise_unless (w'.tenant_id == tenant_uuid) (intake workflow_other_tenant)
  raise_unless (s'.tenant_id == tenant_uuid) (intake shipment_other_tenant)
  raise_unless (s'.case_id == w'.case_id) (intake shipment_other_case)
  attach w'.shipment_id w' s'.shipment_id

unfoldable pub reference_evidence :
    Any Uuid → Any Uuid → Any Uuid → Any (Option Uuid) → Result Error SuppliedEvidenceReference
reference_evidence tenant evidence_id case_id requirement_id = do
  tenant_uuid ← require_tenant_context tenant
  eid ← expect evidence_id (intake not_uuid)
  cid ← expect case_id (intake not_uuid)
  rid ← expect requirement_id (intake not_uuid)
  ok (record { tenant_id = tenant_uuid; evidence_id = eid; case_id = cid; requirement_id = rid })

unfoldable pub supply_to_workflow :
    Any Workflow → Any SuppliedEvidenceReference → Any Uuid → Result Error Workflow
unfolding supply_evidence
supply_to_workflow w e tenant = do
  tenant_uuid ← require_tenant_context tenant
  w' ← expect w (intake workflow_required)
  e' ← expect e (intake evidence_required)
  raise_unless (w'.tenant_id == tenant_uuid) (intake workflow_other_tenant)
  raise_unless (e'.tenant_id == tenant_uuid) (intake evidence_other_tenant)
  raise_unless (e'.case_id == w'.case_id) (intake evidence_other_case)
  supply_evidence (typed w') tenant (typed (typed e'.evidence_id ∷ []))
