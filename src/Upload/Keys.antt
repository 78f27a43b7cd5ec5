-- ===== src/Upload/Keys.antt =====
-- The key under which a file is stored (`compose_object_key`).
use xportra_ai.Base.{
  ℕ, Bool, not, ◌&&◌, ◌||◌, List, [], ◌∷◌, ◌++◌, Any, Result, ok, ◌>>=◌, ◌>>◌, raise_unless, expect,
  ◌==◌, leb, length, any,
}
use xportra_ai.Base.Text.{Text, codes}
use xportra_ai.Errors.{Uuid, Error, upload, malformed_key}
use xportra_ai.Upload.Files.{among}

abbrev pub is_hex_digit : ℕ → Bool
is_hex_digit c = (leb 48 c && leb c 57) || (leb 97 c && leb c 102)

-- `re.fullmatch(r"[0-9a-f]{64}", text)`
abbrev pub is_digest : Text → Bool
is_digest t = length t == 64 && not (any (λ c. not (is_hex_digit c)) t)

abbrev pub key_extensions : List Text
key_extensions = codes ".pdf" ∷ codes ".docx" ∷ codes ".jpg" ∷ codes ".png" ∷ []

-- `UUID.hex`
module _ (hex : Uuid → Text) where
  abbrev pub key_text : Uuid → Uuid → Text → Text → Text
  key_text tenant evidence digest extension =
      codes "tenant/"
      ++ (hex tenant
          ++ (codes "/evidence/" ++ (hex evidence ++ (codes "/" ++ (digest ++ extension)))))

  -- `compose_object_key`
  unfoldable pub compose_object_key : Any Uuid → Any Uuid → Any Text → Text → Result Error Text
  compose_object_key tenant_id evidence_id content_hash extension = do
    tenant ← expect tenant_id (upload malformed_key)
    evidence ← expect evidence_id (upload malformed_key)
    digest ← expect content_hash (upload malformed_key)
    raise_unless (is_digest digest) (upload malformed_key)
    raise_unless (among extension key_extensions) (upload malformed_key)
    ok (key_text tenant evidence digest extension)
