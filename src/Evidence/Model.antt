-- ===== src/Evidence/Model.antt =====
-- Retrieved evidence (xportra/domain/evidence_retrieval.py): results, scopes, the duplicate rule;
-- and the scores that retrieval attaches.
use xportra_ai.Base.{ℕ, Bool, true, false, ◌&&◌, Option, none, some, ◌==◌, list_eq}
use xportra_ai.Base.Text.{Text}
use xportra_ai.Base.Int.{ℤ}
use xportra_ai.Errors.{Uuid}

-- A Python float. A finite one is a whole multiple of 2 ^ -1074, the least positive float, and is
-- given by that multiple: so both zeros are 0, as comparison has it. `not_finite` is an infinity
-- or a NaN.
pub data Float : Type 0 where
  finite : ℤ → Float
  not_finite : Float

-- `EvidenceRetrievalResult`. The fingerprint is a SHA-256 digest, as the number that it writes.
pub record Evidence : Type 0 where
  pub tenant_id : Uuid
  pub chunk_id : Uuid
  pub document_id : Uuid
  pub chunk_index : ℕ
  pub content : Text
  pub content_fingerprint : ℕ
  pub source_id : Text
  pub source_type : Text
  pub source_location : Option Text
  pub document_version : Option Text
  pub embedding_model : Text
  pub embedding_dimensions : ℕ
  pub score : Float

-- `evidence_duplicate_key`: two results are duplicates if both parts agree.
abbrev pub same_evidence : Evidence → Evidence → Bool
same_evidence a b = a.document_id == b.document_id && a.content_fingerprint == b.content_fingerprint

-- `EvidenceRetrievalScope`: `none` restricts nothing.
pub record Scope : Type 0 where
  pub source_id : Option Text
  pub source_type : Option Text
  pub document_id : Option Uuid
  pub document_version : Option Text

abbrev pub agrees : Option Text → Text → Bool
agrees none t = true
agrees (some s) t = list_eq t s

abbrev pub agrees_id : Option Uuid → Uuid → Bool
agrees_id none u = true
agrees_id (some v) u = u == v

abbrev pub agrees_version : Option Text → Option Text → Bool
agrees_version none t = true
agrees_version (some s) none = false
agrees_version (some s) (some t) = list_eq t s

-- `EvidenceRetrievalScope.accepts`
unfoldable pub accepts : Scope → Evidence → Bool
accepts s e =
    agrees s.source_id e.source_id
    && agrees s.source_type e.source_type
    && agrees_id s.document_id e.document_id
    && agrees_version s.document_version e.document_version
