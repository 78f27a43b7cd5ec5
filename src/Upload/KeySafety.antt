-- ===== src/Upload/KeySafety.antt =====
-- Keys of the storage keep tenants apart.
use xportra_ai.Base.{
  ◌<◌, ◌≡◌, refl, sym, ap, ◌∙◌, true, [], ◌∷◌, ◌++◌, typed, arith, ok, raise_unless, length,
  >>-eq-ok, raise_unless-eq-ok, ok-injective,
}
use xportra_ai.Base.Text.{Text, codes}
use xportra_ai.Errors.{Uuid, upload, malformed_key}
use xportra_ai.Upload.Files.{among}
use xportra_ai.Upload.Keys.{is_digest, key_extensions, key_text, compose_object_key}

-- Texts that begin with parts of equal length agree part by part.
append_split : (a b c d : Text) → length a ≡ length b → a ++ c ≡ b ++ d → (a ≡ b) × (c ≡ d)
append_split [] [] c d n e = (refl, e)
append_split [] (y ∷ b) c d n e = absurd (omega (arith, n))
append_split (x ∷ a) [] c d n e = absurd (omega (arith, n))
append_split (x ∷ a) (y ∷ b) c d n e =
    let (same, rest) = append_split a b c d (omega (arith, n)) (cc e) in
    (ap (λ z. z ∷ a) (cc e) ∙ ap (λ s. y ∷ s) same, rest)

append_cancel : (a c d : Text) → a ++ c ≡ a ++ d → c ≡ d
append_cancel a c d e = (append_split a a c d refl e).1

is_digest-length : (t : Text) → is_digest t ≡ true → length t ≡ 64
is_digest-length t h = ground (arith, h)

-- The number of a UUID has 128 bits.
abbrev pub IsUuid : Uuid → Type 0
IsUuid u = u < 340282366920938463463374607431768211456

-- `UUID.hex` has 32 characters, and no two identities have the same.
module _ (hex : Uuid → Text) (hex_length : (u : Uuid) → IsUuid u → length (hex u) ≡ 32)
    (hex_injective : (u v : Uuid) → IsUuid u → IsUuid v → hex u ≡ hex v → u ≡ v) where
  key_text-injective :
      (t u e f : Uuid) (d h x y : Text)
      → (IsUuid t × IsUuid u) × (IsUuid e × IsUuid f)
      → length d ≡ length h
      → key_text hex t e d x ≡ key_text hex u f h y
      → (t ≡ u) × (e ≡ f) × (d ≡ h) × (x ≡ y)
  key_text-injective t u e f d h x y ((bt, bu), (be, bf)) digests same =
      let (tenants, a) =
        append_split (hex t) (hex u) _ _ (hex_length t bt ∙ sym (hex_length u bu))
          (append_cancel (codes "tenant/") _ _ same) in
      let (evidence, b) =
        append_split (hex e) (hex f) _ _ (hex_length e be ∙ sym (hex_length f bf))
          (append_cancel (codes "/evidence/") _ _ a) in
      let (hashes, c) = append_split d h x y digests (append_cancel (codes "/") _ _ b) in
      (hex_injective t u bt bu tenants, hex_injective e f be bf evidence, hashes, c)

  composed :
      (t e : Uuid) (d x key : Text)
      → compose_object_key hex (typed t) (typed e) (typed d) x ≡ ok key
      → (is_digest d ≡ true) × (key_text hex t e d x ≡ key)
  unfolding compose_object_key
  composed t e d x key h =
      let (digest, a) = >>-eq-ok (raise_unless (is_digest d) (upload malformed_key)) _ h in
      let (extension, b) =
        >>-eq-ok (raise_unless (among x key_extensions) (upload malformed_key)) _ a in
      (raise_unless-eq-ok (is_digest d) (upload malformed_key) digest, ok-injective b)

  -- A key names what it was composed of: if two calls give the same key, their tenants, evidence
  -- identities, digests and extensions are the same. So no two tenants share a key.
  pub compose_object_key-injective :
      (t u e f : Uuid) (d h x y key : Text)
      → (IsUuid t × IsUuid u) × (IsUuid e × IsUuid f)
      → compose_object_key hex (typed t) (typed e) (typed d) x ≡ ok key
      → compose_object_key hex (typed u) (typed f) (typed h) y ≡ ok key
      → (t ≡ u) × (e ≡ f) × (d ≡ h) × (x ≡ y)
  compose_object_key-injective t u e f d h x y key bounds a b =
      let (dd, k) = composed t e d x key a in
      let (dh, l) = composed u f h y key b in
      key_text-injective t u e f d h x y bounds
        (is_digest-length d dd ∙ sym (is_digest-length h dh)) (k ∙ sym l)
