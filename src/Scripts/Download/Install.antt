-- ===== src/Scripts/Download/Install.antt =====
-- What the download of one item does to the files.
use distributed_model_server.Prelude.{
  ◌≡◌, refl, ◌∙◌, Text, Bool, true, false, not, ◌&&◌, ◌⊎◌, inl, inr, List, [], ◌∷◌, Option, none,
  some, text_eq, text_eq_refl, text_eq_iff, if_cases, Bool-cases, all_by, arith,
}
use distributed_model_server.Scripts.Download.{
  Bytes, Hasher, Files, write, Retrieved, stored, broken, Item, Outcome, done, temp_path,
  has_digest, verify_sha256, install, download_file,
}

-- A path that is neither the item's own nor that of its temporary file.
abbrev pub elsewhere : Text → Item → Bool
elsewhere q item = not (text_eq item.path q) && not (text_eq (temp_path item.path) q)

-- No two items share a path, and no item's temporary file is another item.
abbrev pub are_apart : List Item → Bool
are_apart [] = true
are_apart (item ∷ items) =
    all_by (λ j. elsewhere item.path j && elsewhere j.path item) items && are_apart items

abbrev pub Each : (Item → Type 0) → List Item → Type 0
Each P [] = Unit
Each P (item ∷ items) = P item × Each P items

pub write_self : (p : Text) (c : Option Bytes) (files : Files) → write p c files p ≡ c
write_self p c files = rw (text_eq_refl p) refl

write_ne :
    (p q : Text) (c : Option Bytes) (files : Files)
    → text_eq p q ≡ false
    → write p c files q ≡ files q
write_ne p q c files e = rw e refl

text_eq-suffix : (p : Text) → text_eq (temp_path p) p ≡ false
unfolding text_eq
text_eq-suffix p = elim (Bool-cases (text_eq (temp_path p) p)) [
  | inl e ↦ absurd (longer p ((text_eq_iff (temp_path p) p).0 e))
  | inr e ↦ e
]
  where
    longer : (t : Text) → temp_path t ≡ t → ⊥
    longer [] e = cc
    longer (c ∷ t) e = longer t (cc)

module _ (h : Hasher) where
  abbrev pub IsVerified : Files → Item → Type 0
  IsVerified files item = verify_sha256 h files item.path item.sha256 ≡ true

  -- What stands at the item's path is what stood there before, or has the expected hash.
  abbrev pub IsKept : Files → Files → Item → Type 0
  IsKept before after item = (after item.path ≡ before item.path) ⊎ IsVerified after item

  pub IsVerified-same :
      (before after : Files) (item : Item)
      → after item.path ≡ before item.path
      → IsVerified before item
      → IsVerified after item
  unfolding verify_sha256
  IsVerified-same before after item e v = rw e v

  pub IsKept-trans :
      (before between after : Files) (item : Item)
      → after item.path ≡ between item.path
      → IsKept before between item
      → IsKept before after item
  IsKept-trans before between after item e (inl k) = inl (e ∙ k)
  IsKept-trans before between after item e (inr v) = inr (IsVerified-same between after item e v)

  -- What one item's download does.
  pub record IsInstalled (before : Files) (item : Item) (r : Outcome × Files) : Type 0 where
    pub there : r.0 ≡ done → IsVerified r.1 item
    pub kept : IsKept before r.1 item
    pub frame : (q : Text) → elsewhere q item ≡ true → r.1 q ≡ before q

  install-IsInstalled :
      (item : Item) (r : Retrieved) (files : Files)
      → IsInstalled files item (install h item r files)
  unfolding install verify_sha256
  install-IsInstalled item (broken none) files = record {
    there = λ e. cc;
    kept = inl refl;
    frame = λ q e. refl;
  }
  install-IsInstalled item (broken (some part)) files = record {
    there = λ e. cc;
    kept =
        inl (write_ne (temp_path item.path) item.path (some part) files (text_eq-suffix item.path));
    frame = λ q e. ground (arith);
  }
  install-IsInstalled item (stored bytes) files =
      let fetched : Files = write (temp_path item.path) (some bytes) files in
      let moved : Files =
        write (temp_path item.path) none
          (write item.path (fetched (temp_path item.path)) fetched) in
      if_cases (IsInstalled files item) (has_digest h (fetched (temp_path item.path)) item.sha256)
        (λ ok.
          let placed : IsVerified moved item =
            rw (text_eq-suffix item.path, text_eq_refl item.path) ok in
          record { there = λ e. placed; kept = inr placed; frame = λ q e. ground arith })
        (λ bad. record {
          there = λ e. cc;
          kept = inl (rw (text_eq-suffix item.path) refl);
          frame = λ q e. ground arith;
        })

  pub download_file-IsInstalled :
      (net : Text → Retrieved) (item : Item) (files : Files)
      → IsInstalled files item (download_file h net item files)
  unfolding download_file
  download_file-IsInstalled net item files =
      if_cases (IsInstalled files item) (verify_sha256 h files item.path item.sha256)
        (λ v. record { there = λ e. v; kept = inl refl; frame = λ q e. refl })
        (λ _. install-IsInstalled item (net item.url) files)
