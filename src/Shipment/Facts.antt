-- ===== src/Shipment/Facts.antt =====
-- What is true of the facts of every shipment that the code builds.
use xportra_ai.Base.{
  ◌≡◌, refl, true, false, Option, none, some, Any, typed, untyped, ok, arith, Ensures, Bool-cases,
  Ensures-bind, Ensures-ok, ◌∙◌, inl, inr,
}
use xportra_ai.Base.Text.{Text, strip, is_blank, strip_idem, is_blank-strip}
use xportra_ai.Errors.{
  Uuid, Fact, product, origin_country, destination_country, quantity, unit, shipment_date,
}
use xportra_ai.Shipment.{
  Shipment, Argument, Patch, draft, is_listed, required_text, optional_text, patch_required,
  patch_optional, create, update_profile, replace_facts,
}

-- A fact is trimmed and not blank.
abbrev pub IsFact : Text → Type 0
IsFact t = (strip t ≡ t) × (is_blank t ≡ false)

abbrev pub IsOptionalFact : Option Text → Type 0
IsOptionalFact none = Unit
IsOptionalFact (some t) = IsFact t

pub record IsValid (s : Shipment) : Type 0 where
  pub product_fact : IsFact s.product
  pub origin_fact : IsFact s.origin_country
  pub destination_fact : IsFact s.destination_country
  pub quantity_fact : IsOptionalFact s.quantity
  pub unit_fact : IsOptionalFact s.unit
  pub date_fact : IsOptionalFact s.shipment_date
  pub listed : is_listed s.status ≡ true

pub required_text-IsFact : (a : Argument) (f : Fact) → Ensures IsFact (required_text a f)
unfolding required_text
required_text-IsFact untyped f = tt
required_text-IsFact (typed none) f = tt
required_text-IsFact (typed (some t)) f = elim (Bool-cases (is_blank t)) [
  | inl e ↦ rw e tt
  | inr e ↦ rw e (strip_idem t, is_blank-strip t ∙ e)
]

pub optional_text-IsFact : (a : Argument) (f : Fact) → Ensures IsOptionalFact (optional_text a f)
unfolding optional_text
optional_text-IsFact untyped f = tt
optional_text-IsFact (typed none) f = tt
optional_text-IsFact (typed (some t)) f = elim (Bool-cases (is_blank t)) [
  | inl e ↦ rw e tt
  | inr e ↦ rw e (strip_idem t, is_blank-strip t ∙ e)
]

abbrev IsFreshDraft : Uuid → Shipment → Type 0
IsFreshDraft t s = IsValid s × (s.status ≡ draft) × (s.tenant_id ≡ t)

create-Ensures :
    (t si ci : Uuid) (p o d q u s : Argument)
    → Ensures (IsFreshDraft t) (create (typed t) (typed si) (typed ci) p o d q u s)
unfolding create
create-Ensures t si ci p o d q u s = Ensures-bind IsFact _ _ _ (required_text-IsFact p _) λ p' hp.
    Ensures-bind IsFact _ _ _ (required_text-IsFact o _) λ o' ho.
      Ensures-bind IsFact _ _ _ (required_text-IsFact d _) λ d' hd.
        Ensures-bind IsOptionalFact _ _ _ (optional_text-IsFact q _) λ q' hq.
          Ensures-bind IsOptionalFact _ _ _ (optional_text-IsFact u _) λ u' hu.
            Ensures-bind IsOptionalFact _ _ _ (optional_text-IsFact s _) λ s' hs. (
              record {
                product_fact = hp;
                origin_fact = ho;
                destination_fact = hd;
                quantity_fact = hq;
                unit_fact = hu;
                date_fact = hs;
                listed = refl;
              },
              refl,
              refl,
            )

-- A shipment that `create` returns is a draft of the caller's tenant whose required facts are
-- trimmed and not blank, and whose optional facts are absent or so too.
pub create-IsValid :
    (t : Uuid) (si ci : Any Uuid) (p o d q u s : Argument) {r : Shipment}
    → create (typed t) si ci p o d q u s ≡ ok r
    → IsValid r × (r.status ≡ draft) × (r.tenant_id ≡ t)
create-IsValid t (typed si) (typed ci) p o d q u s e =
    Ensures-ok (IsFreshDraft t) _ (create-Ensures t si ci p o d q u s) e
create-IsValid t untyped ci p o d q u s e = absurd (unfold create in cc)
create-IsValid t (typed si) untyped p o d q u s e = absurd (unfold create in cc)

patch_required-IsFact :
    (a : Argument) (f : Fact) (old : Text) → IsFact old → Ensures IsFact (patch_required a f old)
unfolding patch_required
patch_required-IsFact (typed none) f old h = h
patch_required-IsFact (typed (some t)) f old h = required_text-IsFact (typed (some t)) f
patch_required-IsFact untyped f old h = tt

patch_optional-IsFact :
    (a : Argument) (f : Fact) (old : Option Text)
    → IsOptionalFact old
    → Ensures IsOptionalFact (patch_optional a f old)
unfolding patch_optional
patch_optional-IsFact (typed none) f old h = h
patch_optional-IsFact (typed (some t)) f old h = optional_text-IsFact (typed (some t)) f
patch_optional-IsFact untyped f old h = tt

-- What an edit keeps: identities, tenant and status.
abbrev pub KeepsIdentity : Shipment → Shipment → Type 0
KeepsIdentity s r =
    (r.tenant_id ≡ s.tenant_id)
    × (r.shipment_id ≡ s.shipment_id)
    × (r.case_id ≡ s.case_id)
    × (r.status ≡ s.status)

abbrev Kept : Shipment → Shipment → Type 0
Kept s r = IsValid r × KeepsIdentity s r

replace_facts-Ensures :
    (s : Shipment) (c : Patch) → IsValid s → Ensures (Kept s) (replace_facts s c)
unfolding replace_facts
replace_facts-Ensures s c v =
    let pr =
      λ (a : Argument) (f : Fact) (old : Text) (h : IsFact old). patch_required-IsFact a f old h in
    Ensures-bind IsFact (Kept s) (patch_required c.product product s.product) _
      (pr _ _ _ v.product_fact)
      λ p' hp.
        Ensures-bind IsFact (Kept s)
          (patch_required c.origin_country origin_country s.origin_country) _
          (pr _ _ _ v.origin_fact)
          λ o' ho.
            Ensures-bind IsFact (Kept s)
              (patch_required c.destination_country destination_country s.destination_country) _
              (pr _ _ _ v.destination_fact)
              λ d' hd.
                Ensures-bind IsOptionalFact (Kept s) (patch_optional c.quantity quantity s.quantity)
                  _ (patch_optional-IsFact _ _ _ v.quantity_fact)
                  λ q' hq.
                    Ensures-bind IsOptionalFact (Kept s) (patch_optional c.unit unit s.unit) _
                      (patch_optional-IsFact _ _ _ v.unit_fact)
                      λ u' hu.
                        Ensures-bind IsOptionalFact (Kept s)
                          (patch_optional c.shipment_date shipment_date s.shipment_date)
                          (λ t'. ok (record s {
                            product = p';
                            origin_country = o';
                            destination_country = d';
                            quantity = q';
                            unit = u';
                            shipment_date = t';
                          }))
                          (patch_optional-IsFact _ _ _ v.date_fact)
                          λ t' ht. (
                            record {
                              product_fact = hp;
                              origin_fact = ho;
                              destination_fact = hd;
                              quantity_fact = hq;
                              unit_fact = hu;
                              date_fact = ht;
                              listed = v.listed;
                            },
                            (refl, refl, refl, refl),
                          )

replace_facts-IsValid :
    (s : Shipment) (c : Patch) (r : Shipment)
    → IsValid s
    → replace_facts s c ≡ ok r
    → IsValid r × KeepsIdentity s r
replace_facts-IsValid s c r v e = Ensures-ok (Kept s) _ (replace_facts-Ensures s c v) e

-- An edit that returns was of a draft under its own tenant; it keeps the identity and the
-- status, and the facts stay trimmed and not blank.
pub update_profile-IsValid :
    (s : Shipment) (t : Any Uuid) (c : Patch) {r : Shipment}
    → IsValid s
    → update_profile (typed s) t c ≡ ok r
    → IsValid r × KeepsIdentity s r × (s.status ≡ draft) × (t ≡ typed s.tenant_id)
unfolding update_profile
update_profile-IsValid s untyped c v e = absurd (cc)
update_profile-IsValid s (typed t) c {r = r} v e = ground (arith, replace_facts-IsValid s c r v)
