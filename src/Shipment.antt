-- ===== src/Shipment.antt =====
-- Commercial shipments (xportra/domain/shipment.py): the aggregate, `ShipmentService`, and the
-- record form. A text argument is `typed none` for `None`, `typed (some t)` for a string and
-- `untyped` for any other value.
pub mod Facts
pub mod Lifecycle
pub mod Records
pub mod RoundTrip
mod Tests
use xportra_ai.Base.{
  ◌≡◌, Bool, true, false, Option, none, some, Any, typed, untyped, Result, ok, err, ◌>>=◌, ◌>>◌,
  raise_if, raise_unless, expect, ◌==◌, if◌then◌else◌, not,
}
use xportra_ai.Base.Text.{Text, codes, strip, is_blank}
use xportra_ai.Errors.{
  Uuid, Error, shipment, not_uuid, blank_text, not_text, read_only, wrong_status, other_tenant,
  malformed_status, shipment_required, record_required, missing_key, malformed_identity, Fact,
  product, origin_country, destination_country, quantity, unit, shipment_date, status,
  shipment_identity, case_identity, tenant_identity, require_tenant_context,
}

-- SHIPMENT_STATUSES, and any other string that a stored shipment may carry.
pub data Status : Type 0 where
  draft bound locked : Status
  unlisted : Text → Status

abbrev pub is_listed : Status → Bool
is_listed (unlisted s) = false
is_listed _ = true

abbrev pub is_draft : Status → Bool
is_draft draft = true
is_draft _ = false

abbrev pub is_bound : Status → Bool
is_bound bound = true
is_bound _ = false

pub record Shipment : Type 0 where
  pub tenant_id : Uuid
  pub shipment_id : Uuid
  pub case_id : Uuid
  pub product : Text
  pub origin_country : Text
  pub destination_country : Text
  pub quantity : Option Text
  pub unit : Option Text
  pub shipment_date : Option Text
  pub status : Status

abbrev pub Argument : Type 0
Argument = Any (Option Text)

-- `_required_text`
pub required_text : Argument → Fact → Result Error Text
required_text untyped field = err (shipment (blank_text field))
required_text (typed none) field = err (shipment (blank_text field))
required_text (typed (some t)) field =
    if is_blank t then err (shipment (blank_text field)) else ok (strip t)

-- `_optional_text`
pub optional_text : Argument → Fact → Result Error (Option Text)
optional_text untyped field = err (shipment (not_text field))
optional_text (typed none) field = ok none
optional_text (typed (some t)) field = ok (if is_blank t then none else some (strip t))

-- `_optional_stored`
pub optional_stored : Argument → Fact → Result Error (Option Text)
optional_stored (typed none) field = ok none
optional_stored value field = optional_text value field

pub create :
    Any Uuid
    → Any Uuid
    → Any Uuid
    → Argument
    → Argument
    → Argument
    → Argument
    → Argument
    → Argument
    → Result Error Shipment
unfolding required_text optional_text
create tenant shipment_id case_id p o d q u s = do
  tenant_uuid ← require_tenant_context tenant
  sid ← expect shipment_id (shipment (not_uuid shipment_identity))
  cid ← expect case_id (shipment (not_uuid case_identity))
  p' ← required_text p product
  o' ← required_text o origin_country
  d' ← required_text d destination_country
  q' ← optional_text q quantity
  u' ← optional_text u unit
  s' ← optional_text s shipment_date
  ok (record {
    tenant_id = tenant_uuid;
    shipment_id = sid;
    case_id = cid;
    product = p';
    origin_country = o';
    destination_country = d';
    quantity = q';
    unit = u';
    shipment_date = s';
    status = draft;
  })

-- `_checked`
pub checked : Any Shipment → Any Uuid → Result Error Shipment
checked s tenant = do
  tenant_uuid ← require_tenant_context tenant
  s' ← expect s (shipment shipment_required)
  raise_unless (s'.tenant_id == tenant_uuid) (shipment other_tenant)
  raise_unless (is_listed s'.status) (shipment malformed_status)
  ok s'

-- `if value is not None: patch[field] = _required_text(value, field)`, over the old value.
pub patch_required : Argument → Fact → Text → Result Error Text
unfolding required_text
patch_required (typed none) field old = ok old
patch_required value field old = required_text value field

pub patch_optional : Argument → Fact → Option Text → Result Error (Option Text)
unfolding optional_text
patch_optional (typed none) field old = ok old
patch_optional value field old = optional_text value field

-- The keyword arguments of `update_profile`.
pub record Patch : Type 0 where
  pub product : Argument
  pub origin_country : Argument
  pub destination_country : Argument
  pub quantity : Argument
  pub unit : Argument
  pub shipment_date : Argument

-- The tail of `update_profile`: build the patch, then `replace(shipment, **patch)`.
pub replace_facts : Shipment → Patch → Result Error Shipment
unfolding patch_required patch_optional
replace_facts s p = do
  p' ← patch_required p.product product s.product
  o' ← patch_required p.origin_country origin_country s.origin_country
  d' ← patch_required p.destination_country destination_country s.destination_country
  q' ← patch_optional p.quantity quantity s.quantity
  u' ← patch_optional p.unit unit s.unit
  t' ← patch_optional p.shipment_date shipment_date s.shipment_date
  ok (record s {
    product = p';
    origin_country = o';
    destination_country = d';
    quantity = q';
    unit = u';
    shipment_date = t';
  })

pub update_profile : Any Shipment → Any Uuid → Patch → Result Error Shipment
unfolding checked
update_profile s tenant p = do
  s' ← checked s tenant
  raise_unless (is_draft s'.status) (shipment read_only)
  replace_facts s' p

pub mark_bound : Any Shipment → Any Uuid → Result Error Shipment
unfolding checked
mark_bound s tenant = do
  s' ← checked s tenant
  raise_unless (is_draft s'.status) (shipment wrong_status)
  ok (record s' { status = bound })

pub mark_locked : Any Shipment → Any Uuid → Result Error Shipment
unfolding checked
mark_locked s tenant = do
  s' ← checked s tenant
  raise_unless (is_bound s'.status) (shipment wrong_status)
  ok (record s' { status = locked })
