-- ===== src/Scripts/Download/Digest.antt =====
-- Reading a file in chunks hashes the whole of it.
use distributed_model_server.Prelude.{
  ℕ, zero, suc, ◌≤◌, ◌≡◌, refl, sym, ap, ◌∙◌, Text, true, [], ◌∷◌, Option, none, some, ◌↔◌,
  text_eq_iff, length, take, drop, append-take-drop, length-drop-le, arith,
}
use distributed_model_server.Scripts.Download.{
  Bytes, Hasher, Files, update_chunks, has_digest, verify_sha256,
}

module _ (h : Hasher) where
  update_chunks_lem :
      (fuel : ℕ) (s : h.State) (rest : Bytes)
      → length rest ≤ fuel
      → update_chunks h fuel s rest ≡ h.update s rest
  unfolding update_chunks
  update_chunks_lem zero s [] l = sym (h.update-nil s)
  update_chunks_lem zero s (b ∷ bs) l = absurd (omega arith)
  update_chunks_lem (suc fuel) s [] l = sym (h.update-nil s)
  update_chunks_lem (suc fuel) s (b ∷ bs) l =
      let shorter : length (drop 8191 bs) ≤ fuel = omega (arith, length-drop-le 8191 bs) in
      update_chunks_lem fuel (h.update s (take 8192 (b ∷ bs))) (drop 8192 (b ∷ bs)) shorter
      ∙ h.update-append s (take 8192 (b ∷ bs)) (drop 8192 (b ∷ bs))
      ∙ ap (h.update s) (append-take-drop 8192 (b ∷ bs))

  -- The digest of a content that is hashed in one call.
  abbrev pub digest : Bytes → Text
  digest bytes = h.hexdigest (h.update h.init bytes)

  abbrev pub Contains : Files → Text → Text → Type 0
  Contains files path expected =
      (bytes : Bytes) × (files path ≡ some bytes) × (digest bytes ≡ expected)

  has_digest→digest :
      (content : Option Bytes) (expected : Text)
      → has_digest h content expected ≡ true
      → (bytes : Bytes) × (content ≡ some bytes) × (digest bytes ≡ expected)
  unfolding has_digest
  has_digest→digest none expected e = cc
  has_digest→digest (some bytes) expected e = (
    bytes,
    refl,
    ap h.hexdigest (sym (update_chunks_lem (length bytes) h.init bytes (omega arith)))
        ∙ (text_eq_iff _ expected).0 e,
  )

  -- A file passes the check exactly if it is there and the hash of its whole content is the expected one.
  pub verify_sha256_iff :
      (files : Files) (path expected : Text)
      → (verify_sha256 h files path expected ≡ true) ↔ Contains files path expected
  unfolding verify_sha256 has_digest
  verify_sha256_iff files path expected = (
    has_digest→digest (files path) expected,
    λ p. rw p.1 (
        (text_eq_iff _ expected).1
          (ap h.hexdigest (update_chunks_lem (length p.0) h.init p.0 (omega arith)) ∙ p.2)),
  )
