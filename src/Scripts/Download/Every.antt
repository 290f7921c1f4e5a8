-- ===== src/Scripts/Download/Every.antt =====
-- What a run of the downloads does to the files, over the list of items.
use distributed_model_server.Prelude.{
  ◌≡◌, ◌≢◌, refl, ◌∙◌, Text, true, ◌&&◌, ◌⊎◌, inl, inr, List, [], ◌∷◌, some, &&-eq-true, all_by,
  arith,
}
use distributed_model_server.Scripts.Download.Digest.{verify_sha256_iff}
use distributed_model_server.Scripts.Download.{
  Bytes, Hasher, Files, Retrieved, Item, Outcome, done, failed, mismatch, download_file,
  download_all,
}
use distributed_model_server.Scripts.Download.Install.{
  elsewhere, are_apart, Each, IsVerified, IsKept, IsVerified-same, IsKept-trans,
  download_file-IsInstalled,
}

module _ (h : Hasher) where
  unfoldable pub next : (Text → Retrieved) → List Item → Outcome × Files → Outcome × Files
  next net items (done, after) = download_all h net items after
  next net items (failed, after) = (failed, after)
  next net items (mismatch url, after) = (mismatch url, after)

  pub download_all-next :
      (net : Text → Retrieved) (item : Item) (items : List Item) (files : Files)
      → download_all h net (item ∷ items) files ≡ next net items (download_file h net item files)
  unfolding download_all next
  download_all-next net item items files = by_outcome (download_file h net item files)
    where
      by_outcome :
          (r : Outcome × Files)
          → (elim r.0 [
            | done ↦ download_all h net items r.1
            | failed ↦ (failed, r.1)
            | mismatch url ↦ (mismatch url, r.1)
          ])
            ≡ next net items r
      by_outcome (done, after) = refl
      by_outcome (failed, after) = refl
      by_outcome (mismatch url, after) = refl

  pub next_cases :
      (P : Outcome × Files → Type 0) (net : Text → Retrieved) (items : List Item)
      (r : Outcome × Files)
      → (r.0 ≡ done → P (download_all h net items r.1))
      → (r.0 ≢ done → P r)
      → P (next net items r)
  unfolding next
  next_cases P net items (done, after) goes stops = goes refl
  next_cases P net items (failed, after) goes stops = stops (λ e. cc)
  next_cases P net items (mismatch url, after) goes stops = stops (λ e. cc)

  download_all-frame :
      (net : Text → Retrieved) (items : List Item) (files : Files) (q : Text)
      → all_by (elsewhere q) items ≡ true
      → (download_all h net items files).1 q ≡ files q
  download_all-frame net [] files q e = unfold download_all in refl
  download_all-frame net (item ∷ items) files q e =
      let parts = &&-eq-true (elsewhere q item) _ e in
      let step = download_file-IsInstalled h net item files in
      rw (download_all-next net item items files) (
        next_cases (λ r. r.1 q ≡ files q) net items (download_file h net item files)
          (λ _.
            download_all-frame net items (download_file h net item files).1 q parts.1
            ∙ step.frame q parts.0)
          (λ _. step.frame q parts.0))

  each-IsKept :
      (before between after : Files) (item : Item) (items : List Item)
      → ((q : Text) → elsewhere q item ≡ true → between q ≡ before q)
      → all_by (λ j. elsewhere item.path j && elsewhere j.path item) items ≡ true
      → Each (IsKept h between after) items
      → Each (IsKept h before after) items
  each-IsKept before between after item [] frame e k = tt
  each-IsKept before between after item (j ∷ items) frame e k =
      let parts = &&-eq-true (elsewhere item.path j && elsewhere j.path item) _ e in
      let same = frame j.path (&&-eq-true (elsewhere item.path j) _ parts.0).1 in
      (from_before k.0 same, each-IsKept before between after item items frame parts.1 k.1)
    where
      from_before :
          IsKept h between after j → between j.path ≡ before j.path → IsKept h before after j
      from_before (inl e) same = inl (e ∙ same)
      from_before (inr v) same = inr v

  each-IsKept_refl : (files : Files) (items : List Item) → Each (IsKept h files files) items
  each-IsKept_refl files [] = tt
  each-IsKept_refl files (j ∷ items) = (inl refl, each-IsKept_refl files items)

  elsewhere_of_apart :
      (item : Item) (items : List Item)
      → all_by (λ j. elsewhere item.path j && elsewhere j.path item) items ≡ true
      → all_by (elsewhere item.path) items ≡ true
  elsewhere_of_apart item [] e = refl
  elsewhere_of_apart item (j ∷ items) e = ground (arith, elsewhere_of_apart item items)

  pub record IsSafe (before : Files) (items : List Item) (r : Outcome × Files) : Type 0 where
    pub complete : r.0 ≡ done → Each (IsVerified h r.1) items
    pub kept : Each (IsKept h before r.1) items

  pub download_all-IsSafe :
      (net : Text → Retrieved) (items : List Item) (files : Files)
      → are_apart items ≡ true
      → IsSafe files items (download_all h net items files)
  download_all-IsSafe net [] files e = record { complete = λ _. tt; kept = tt }
  download_all-IsSafe net (item ∷ items) files e =
      let parts =
        &&-eq-true (all_by (λ j. elsewhere item.path j && elsewhere j.path item) items) _ e in
      let step = download_file-IsInstalled h net item files in
      let between : Files = (download_file h net item files).1 in
      let rest = download_all-IsSafe net items between parts.1 in
      let same =
        download_all-frame net items between item.path (elsewhere_of_apart item items parts.0) in
      rw (download_all-next net item items files) (
        next_cases (IsSafe files (item ∷ items)) net items (download_file h net item files)
          (λ d. record {
            complete =
                λ e'. (IsVerified-same h between _ item same (step.there d), rest.complete e');
            kept = (
              IsKept-trans h files between _ item same step.kept,
              each-IsKept files between _ item items step.frame parts.0 rest.kept,
            );
          })
          (λ n. record {
            complete = λ e'. absurd (n e');
            kept = (
              step.kept,
              each-IsKept files between between item items step.frame parts.0
                  (each-IsKept_refl between items),
            );
          }))

  -- There is a file at the item's path, and the hash of its whole content is the expected one.
  abbrev pub HasDigest : Files → Item → Type 0
  HasDigest files item =
      (bytes : Bytes) × (files item.path ≡ some bytes)
      × (h.hexdigest (h.update h.init bytes) ≡ item.sha256)

  abbrev pub Ends : Files → List Item → Outcome × Files → Type 0
  Ends before items r =
      ((r.0 ≡ done) × Each (HasDigest r.1) items)
      ⊎ ((r.0 ≢ done)
          × Each (λ item. (r.1 item.path ≡ before item.path) ⊎ HasDigest r.1 item) items)

  Each-map :
      (P Q : Item → Type 0) (items : List Item)
      → ((item : Item) → P item → Q item)
      → Each P items
      → Each Q items
  Each-map P Q [] f k = tt
  Each-map P Q (item ∷ items) f k = (f item k.0, Each-map P Q items f k.1)

  IsVerified-HasDigest :
      (files : Files) (item : Item) → IsVerified h files item → HasDigest files item
  IsVerified-HasDigest files item = (verify_sha256_iff h files item.path item.sha256).0

  IsKept-HasDigest :
      (before files : Files) (item : Item)
      → IsKept h before files item
      → (files item.path ≡ before item.path) ⊎ HasDigest files item
  IsKept-HasDigest before files item (inl e) = inl e
  IsKept-HasDigest before files item (inr v) = inr (IsVerified-HasDigest files item v)

  done-cases : (o : Outcome) → (o ≡ done) ⊎ (o ≢ done)
  done-cases done = inl refl
  done-cases failed = inr (λ e. cc)
  done-cases (mismatch url) = inr (λ e. cc)

  -- For items that are apart, whatever the network does: either the run returns and every item has
  -- a file whose whole content has the expected hash, or it ends with an exception and at each item's path
  -- stands what stood there before, or a file whose whole content has the expected hash.
  pub download_all-Ends :
      (net : Text → Retrieved) (items : List Item) (files : Files)
      → are_apart items ≡ true
      → Ends files items (download_all h net items files)
  download_all-Ends net items files e =
      let safe = download_all-IsSafe net items files e in
      let after : Files = (download_all h net items files).1 in
      elim (done-cases (download_all h net items files).0) [
        | inl d ↦ inl (
          d,
          Each-map (IsVerified h after) (HasDigest after) items (IsVerified-HasDigest after)
              (safe.complete d),
        )
        | inr n ↦
            inr
              (n, Each-map (IsKept h files after) _ items (IsKept-HasDigest files after) safe.kept)
      ]
