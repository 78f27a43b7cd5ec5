-- ===== src/Shipment/Tests.antt =====
-- A shipment of cocoa, and the theorems at it.
use xportra_ai.Base.{Any, ◌≡◌, refl, ◌≢◌, none, some, List, [], ◌∷◌, typed, ok, inl}
use xportra_ai.Base.Text.{is_space, codes, strip, is_blank}
use xportra_ai.Shipment.{
  update_profile, checked, replace_facts, patch_required, patch_optional, required_text,
  optional_text, Shipment, Patch, draft, locked, create, required_text, optional_text, Uuid,
}
use xportra_ai.Shipment.Records.{to_record, shipment_from_record}
use xportra_ai.Shipment.Facts.{update_profile-IsValid, KeepsIdentity, IsValid, create-IsValid}
use xportra_ai.Shipment.Lifecycle.{
  Call, update, bind, lock, perform, history, Evolves, history-Evolves, refused_calls,
}
use xportra_ai.Shipment.RoundTrip.{from_record-to_record}

abbrev cocoa : Shipment
cocoa = record {
  tenant_id = 1;
  shipment_id = 2;
  case_id = 3;
  product = codes "cocoa";
  origin_country = codes "gh";
  destination_country = codes "de";
  quantity = none;
  unit = some (codes "t");
  shipment_date = none;
  status = draft;
}

create-cocoa :
    create
      (typed 1)
      (typed 2)
      (typed 3)
      (typed (some (codes " cocoa ")))
      (typed (some (codes "gh")))
      (typed (some (codes "de ")))
      (typed none)
      (typed (some (codes "t")))
      (typed (some (codes " ")))
    ≡ ok cocoa
unfolding create required_text optional_text strip is_blank is_space
create-cocoa = refl

create-IsValid_example : IsValid cocoa × (cocoa.status ≡ draft) × (cocoa.tenant_id ≡ 1)
create-IsValid_example =
    create-IsValid 1 (typed 2) (typed 3) (typed (some (codes " cocoa ")))
      (typed (some (codes "gh"))) (typed (some (codes "de "))) (typed none)
      (typed (some (codes "t"))) (typed (some (codes " "))) create-cocoa

abbrev renaming : Patch
renaming = record {
  product = typed (some (codes "beans"));
  origin_country = typed none;
  destination_country = typed none;
  quantity = typed none;
  unit = typed none;
  shipment_date = typed none;
}

cocoa-IsValid : IsValid cocoa
cocoa-IsValid =
    (create-IsValid 1 (typed 2) (typed 3) (typed (some (codes " cocoa ")))
      (typed (some (codes "gh"))) (typed (some (codes "de "))) (typed none)
      (typed (some (codes "t"))) (typed (some (codes " "))) create-cocoa).0

abbrev beans : Shipment
beans = record cocoa { product = codes "beans" }

renames : update_profile (typed cocoa) (typed 1) renaming ≡ ok beans
unfolding update_profile checked replace_facts patch_required patch_optional required_text
    optional_text strip is_blank is_space
renames = refl

renames-IsValid :
    IsValid beans
    × KeepsIdentity cocoa beans
    × (cocoa.status ≡ draft)
    × (◌≡◌ {A = Any Uuid} (typed 1) (typed 1))
renames-IsValid = update_profile-IsValid cocoa (typed 1) renaming cocoa-IsValid renames

abbrev calls : List Call
calls = update renaming ∷ bind ∷ update renaming ∷ lock ∷ []

history-Evolves_example :
    IsValid (history calls (typed 1) cocoa) × Evolves cocoa (history calls (typed 1) cocoa)
history-Evolves_example = history-Evolves calls (typed 1) cocoa cocoa-IsValid

refused_calls_example : perform bind (record cocoa { status = locked }) (typed 1) ≢ ok cocoa
refused_calls_example =
    refused_calls bind (typed 1) (record cocoa { status = locked }) cocoa (inl refl)

-- A printer of identities for this example: one code point.
from_record-to_record_example :
    shipment_from_record
      (λ t. elim t [ [] ↦ none | u ∷ rest ↦ some u ])
      (typed (to_record (λ u. u ∷ []) cocoa))
    ≡ ok cocoa
from_record-to_record_example =
    from_record-to_record (λ u. u ∷ []) (λ t. elim t [ [] ↦ none | u ∷ rest ↦ some u ]) (λ u. refl)
      cocoa cocoa-IsValid
