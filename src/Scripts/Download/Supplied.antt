-- ===== src/Scripts/Download/Supplied.antt =====
-- When a run of the downloads succeeds.
use distributed_model_server.Prelude.{
  ◌≡◌, refl, Text, true, ◌&&◌, ◌⊎◌, inl, inr, List, [], ◌∷◌, some, if_cases, &&-eq-true, all_by,
}
use distributed_model_server.Scripts.Download.{
  Bytes, Hasher, Files, write, Retrieved, stored, Item, Outcome, done, temp_path, verify_sha256,
  install, download_file, download_all,
}
use distributed_model_server.Scripts.Download.Digest.{digest, verify_sha256_iff}
use distributed_model_server.Scripts.Download.Install.{
  elsewhere, are_apart, Each, write_self, IsVerified, IsVerified-same, download_file-IsInstalled,
}
use distributed_model_server.Scripts.Download.Every.{
  download_all-next, next_cases, download_all-IsSafe,
}

module _ (h : Hasher) where
  -- The item's file is there already, or the network has it.
  abbrev pub IsSupplied : (Text → Retrieved) → Files → Item → Type 0
  IsSupplied net files item =
      IsVerified h files item
      ⊎ ((bytes : Bytes) × (net item.url ≡ stored bytes) × (digest h bytes ≡ item.sha256))

  install_good :
      (item : Item) (bytes : Bytes) (files : Files)
      → digest h bytes ≡ item.sha256
      → (install h item (stored bytes) files).0 ≡ done
  unfolding install
  install_good item bytes files e =
      let fetched : Files = write (temp_path item.path) (some bytes) files in
      let there : fetched (temp_path item.path) ≡ some bytes =
        write_self (temp_path item.path) (some bytes) files in
      let good : verify_sha256 h fetched (temp_path item.path) item.sha256 ≡ true =
        (verify_sha256_iff h fetched (temp_path item.path) item.sha256).1 (bytes, there, e) in
      rw good refl

  download_file_good :
      (net : Text → Retrieved) (item : Item) (files : Files)
      → IsSupplied net files item
      → (download_file h net item files).0 ≡ done
  unfolding download_file
  download_file_good net item files (inl v) = rw v refl
  download_file_good net item files (inr (bytes, e, d)) =
      if_cases (λ (r : Outcome × Files). r.0 ≡ done) (verify_sha256 h files item.path item.sha256)
        (λ _. refl) (λ _. rw e (install_good item bytes files d))

  each-IsSupplied :
      (net : Text → Retrieved) (before after : Files) (item : Item) (items : List Item)
      → ((q : Text) → elsewhere q item ≡ true → after q ≡ before q)
      → all_by (λ j. elsewhere item.path j && elsewhere j.path item) items ≡ true
      → Each (IsSupplied net before) items
      → Each (IsSupplied net after) items
  each-IsSupplied net before after item [] frame e k = tt
  each-IsSupplied net before after item (j ∷ items) frame e k =
      let parts = &&-eq-true (elsewhere item.path j && elsewhere j.path item) _ e in
      let same = frame j.path (&&-eq-true (elsewhere item.path j) _ parts.0).1 in
      (still k.0 same, each-IsSupplied net before after item items frame parts.1 k.1)
    where
      still : IsSupplied net before j → after j.path ≡ before j.path → IsSupplied net after j
      still (inl v) same = inl (IsVerified-same h before after j same v)
      still (inr p) same = inr p

  download_all_good :
      (net : Text → Retrieved) (items : List Item) (files : Files)
      → are_apart items ≡ true
      → Each (IsSupplied net files) items
      → (download_all h net items files).0 ≡ done
  download_all_good net [] files e k = unfold download_all in refl
  download_all_good net (item ∷ items) files e k =
      let parts =
        &&-eq-true (all_by (λ j. elsewhere item.path j && elsewhere j.path item) items) _ e in
      let step = download_file-IsInstalled h net item files in
      let between : Files = (download_file h net item files).1 in
      let supplied = each-IsSupplied net files between item items step.frame parts.0 k.1 in
      rw (download_all-next h net item items files) (
        next_cases h (λ r. r.0 ≡ done) net items (download_file h net item files)
          (λ d. download_all_good net items between parts.1 supplied)
          (λ n. absurd (n (download_file_good net item files k.0))))

  -- For items that are apart, a run returns and the file of every item has the expected hash, if for every
  -- item a file with this hash is there already or is what the network stores.
  pub download_all_succeeds :
      (net : Text → Retrieved) (items : List Item) (files : Files)
      → are_apart items ≡ true
      → Each (IsSupplied net files) items
      → ((download_all h net items files).0 ≡ done)
        × Each (IsVerified h (download_all h net items files).1) items
  download_all_succeeds net items files e k =
      let d = download_all_good net items files e k in
      (d, (download_all-IsSafe h net items files e).complete d)
