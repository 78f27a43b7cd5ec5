-- ===== src/Shipment/RoundTrip.antt =====
-- Storing a shipment and reading it back.
use xportra_ai.Base.{◌≡◌, refl, Option, none, some, typed, ok}
use xportra_ai.Base.Text.{Text}
use xportra_ai.Errors.{Uuid, Fact}
use xportra_ai.Shipment.{Shipment, required_text, optional_text, optional_stored}
use xportra_ai.Shipment.Records.{to_record, shipment_from_record}
use xportra_ai.Shipment.Facts.{IsFact, IsOptionalFact, IsValid}

required_text_of_IsFact : (t : Text) (f : Fact) → IsFact t → required_text (typed (some t)) f ≡ ok t
unfolding required_text
required_text_of_IsFact t f (trimmed, filled) = rw (filled, trimmed)

optional_stored_of_IsFact :
    (t : Option Text) (f : Fact) → IsOptionalFact t → optional_stored (typed t) f ≡ ok t
unfolding optional_stored optional_text
optional_stored_of_IsFact none f h = refl
optional_stored_of_IsFact (some t) f (trimmed, filled) = rw (filled, trimmed)

-- If the library's reader of identities reads back what its printer prints, then
-- `shipment_from_record` reads back every valid shipment that `to_record` writes.
pub from_record-to_record :
    (str_uuid : Uuid → Text) (parse : Text → Option Uuid)
    → ((u : Uuid) → parse (str_uuid u) ≡ some u)
    → (s : Shipment) → IsValid s
    → shipment_from_record parse (typed (to_record str_uuid s)) ≡ ok s
unfolding shipment_from_record to_record
from_record-to_record str_uuid parse reads s v =
    rw
      (
        v.listed,
        reads s.tenant_id,
        reads s.shipment_id,
        reads s.case_id,
        required_text_of_IsFact s.product _ v.product_fact,
        required_text_of_IsFact s.origin_country _ v.origin_fact,
        required_text_of_IsFact s.destination_country _ v.destination_fact,
        optional_stored_of_IsFact s.quantity _ v.quantity_fact,
        optional_stored_of_IsFact s.unit _ v.unit_fact,
        optional_stored_of_IsFact s.shipment_date _ v.date_fact,
      )
      refl
