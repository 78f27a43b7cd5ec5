-- ===== src/Shipment/Records.antt =====
-- The record form of a shipment (xportra/domain/shipment.py): `to_record` and
-- `shipment_from_record`.
use xportra_ai.Base.{
  Option, none, some, Any, typed, Result, ok, err, ◌>>=◌, ◌>>◌, raise_unless, expect,
}
use xportra_ai.Base.Text.{Text}
use xportra_ai.Errors.{
  Uuid, Error, shipment, malformed_status, record_required, missing_key, malformed_identity, Fact,
  product, origin_country, destination_country, quantity, unit, shipment_date, status,
  shipment_identity, case_identity, tenant_identity,
}
use xportra_ai.Shipment.{
  Status, is_listed, Shipment, Argument, required_text, optional_text, optional_stored,
}

-- An identity in a record: a UUID, or another value with its `str()`. `None`, which `.get`
-- returns for a missing key, reads "None".
pub data StoredId : Type 0 where
  uuid : Uuid → StoredId
  other : Text → StoredId

-- The mapping that `to_record` writes and `shipment_from_record` reads. The four keys that are
-- read by `record[...]` may be missing.
pub record ShipmentRecord : Type 0 where
  pub tenant_id : StoredId
  pub shipment_id : StoredId
  pub case_id : StoredId
  pub product : Option Argument
  pub origin_country : Option Argument
  pub destination_country : Option Argument
  pub quantity : Argument
  pub unit : Argument
  pub shipment_date : Argument
  pub status : Option Status

-- `record[key]`, whose KeyError becomes a ShipmentError.
key : {A : Type 0} → Option A → Fact → Result Error A
key none field = err (shipment (missing_key field))
key (some a) field = ok a

-- The library `uuid` prints and reads identities.
module _ (str_uuid : Uuid → Text) where
  unfoldable pub to_record : Shipment → ShipmentRecord
  to_record s = record {
    tenant_id = other (str_uuid s.tenant_id);
    shipment_id = other (str_uuid s.shipment_id);
    case_id = other (str_uuid s.case_id);
    product = some (typed (some s.product));
    origin_country = some (typed (some s.origin_country));
    destination_country = some (typed (some s.destination_country));
    quantity = typed s.quantity;
    unit = typed s.unit;
    shipment_date = typed s.shipment_date;
    status = some s.status;
  }

module _ (parse : Text → Option Uuid) where
  -- `_parse_uuid`
  parse_uuid : StoredId → Fact → Result Error Uuid
  parse_uuid (uuid u) field = ok u
  parse_uuid (other t) field = elim (parse t) [
    | none ↦ err (shipment (malformed_identity field))
    | some u ↦ ok u
  ]

  unfoldable pub shipment_from_record : Any ShipmentRecord → Result Error Shipment
  unfolding key parse_uuid required_text optional_stored optional_text
  shipment_from_record r = do
    r' ← expect r (shipment record_required)
    st ← key r'.status status
    p ← key r'.product product
    o ← key r'.origin_country origin_country
    d ← key r'.destination_country destination_country
    raise_unless (is_listed st) (shipment malformed_status)
    tid ← parse_uuid r'.tenant_id tenant_identity
    sid ← parse_uuid r'.shipment_id shipment_identity
    cid ← parse_uuid r'.case_id case_identity
    p' ← required_text p product
    o' ← required_text o origin_country
    d' ← required_text d destination_country
    q' ← optional_stored r'.quantity quantity
    u' ← optional_stored r'.unit unit
    s' ← optional_stored r'.shipment_date shipment_date
    ok (record {
      tenant_id = tid;
      shipment_id = sid;
      case_id = cid;
      product = p';
      origin_country = o';
      destination_country = d';
      quantity = q';
      unit = u';
      shipment_date = s';
      status = st;
    })
