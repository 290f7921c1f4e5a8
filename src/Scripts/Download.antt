-- ===== src/Scripts/Download.antt =====
-- scripts/download_model.py: the download of the model's files and the check of their hashes. The file
-- system is a function from paths to contents; making the parent directory is left out of it.
pub mod Digest
pub mod Install
pub mod Every
pub mod Supplied
use distributed_model_server.Prelude.{
  ℕ, zero, suc, Text, codes, Bool, true, false, List, [], ◌∷◌, ◌++◌, Option, none, some, text_eq,
  if◌then◌else◌, length, take, drop, ◌≡◌,
}

abbrev pub Bytes : Type 0
Bytes = List ℕ

-- `hashlib.sha256()`: repeated calls of `update` stand for one call with all the bytes in a row.
pub record Hasher : Type 1 where
  pub State : Type 0
  pub init : State
  pub update : State → Bytes → State
  pub hexdigest : State → Text
  pub update-nil : (s : State) → update s [] ≡ s
  pub update-append : (s : State) (xs ys : Bytes) → update (update s xs) ys ≡ update s (xs ++ ys)

-- `none` is a path at which there is no file.
abbrev pub Files : Type 0
Files = Text → Option Bytes

abbrev pub write : Text → Option Bytes → Files → Files
write path content files q = if text_eq path q then content else files q

-- What `urlretrieve` does: it returns with the file stored, or raises an exception and leaves something
-- or nothing of the file.
pub data Retrieved : Type 0 where
  stored : Bytes → Retrieved
  broken : Option Bytes → Retrieved

pub record Item : Type 0 where
  pub path : Text
  pub url : Text
  pub sha256 : Text

-- How a call ends; a `ValueError` is `mismatch`, and `failed` is an exception of `urlretrieve`.
pub data Outcome : Type 0 where
  done failed : Outcome
  mismatch : Text → Outcome

-- `dest_path.with_suffix(dest_path.suffix + ".tmp")`
abbrev pub temp_path : Text → Text
temp_path path = path ++ codes ".tmp"

module _ (h : Hasher) where
  -- `while chunk := f.read(8192)`, with the number of bytes as the fuel.
  unfoldable pub update_chunks : ℕ → h.State → Bytes → h.State
  update_chunks zero s rest = s
  update_chunks (suc fuel) s [] = s
  update_chunks (suc fuel) s (b ∷ bs) =
      update_chunks fuel (h.update s (take 8192 (b ∷ bs))) (drop 8192 (b ∷ bs))

  abbrev has_digest : Option Bytes → Text → Bool
  unfolding update_chunks
  has_digest none expected = false
  has_digest (some bytes) expected =
      text_eq (h.hexdigest (update_chunks (length bytes) h.init bytes)) expected

  unfoldable pub verify_sha256 : Files → Text → Text → Bool
  unfolding has_digest
  verify_sha256 files path expected = has_digest (files path) expected

  -- From the return of `urlretrieve` on; `os.replace` moves the file.
  unfoldable pub install : Item → Retrieved → Files → Outcome × Files
  unfolding verify_sha256
  install item (broken none) files = (failed, files)
  install item (broken (some part)) files = (failed, write (temp_path item.path) (some part) files)
  install item (stored bytes) files =
      let fetched = write (temp_path item.path) (some bytes) files in
      if verify_sha256 fetched (temp_path item.path) item.sha256
      then (
        done,
        write (temp_path item.path) none (write item.path (fetched (temp_path item.path)) fetched),
      )
      else (mismatch item.url, write (temp_path item.path) none fetched)

  unfoldable pub download_file : (Text → Retrieved) → Item → Files → Outcome × Files
  unfolding verify_sha256 install
  download_file net item files =
      if verify_sha256 files item.path item.sha256
      then (done, files)
      else install item (net item.url) files

  -- `main`, which an exception ends.
  unfoldable pub download_all : (Text → Retrieved) → List Item → Files → Outcome × Files
  unfolding download_file
  download_all net [] files = (done, files)
  download_all net (item ∷ items) files =
      let (outcome, after) = download_file net item files in
      elim outcome [
        | done ↦ download_all net items after
        | failed ↦ (failed, after)
        | mismatch url ↦ (mismatch url, after)
      ]

abbrev artifacts : Text → Text
artifacts name = codes "artifacts/model/" ++ name

-- `FILES`
abbrev pub model_files : List Item
model_files =
    record {
      path = artifacts (codes "model.onnx");
      url =
          codes
            "https://huggingface.co/fxmarty/tiny-bert-sst2-distilled-onnx-subfolder/resolve/d3017b38272765ae30e68f73de1fcb432bb97f3d/my_subfolder/model.onnx";
      sha256 = codes "23ea44ed3eb302e22045900ba8565dd672a9f4c127f5514ce182f01d83fe2e3a";
    }
    ∷ record {
      path = artifacts (codes "config.json");
      url =
          codes
            "https://huggingface.co/fxmarty/tiny-bert-sst2-distilled-onnx-subfolder/resolve/d3017b38272765ae30e68f73de1fcb432bb97f3d/my_subfolder/config.json";
      sha256 = codes "3049b86c8f85f0bb54c79b359c9b91f6581e13f2a28d5e5eaac97381b53cb077";
    }
    ∷ record {
      path = artifacts (codes "tokenizer.json");
      url =
          codes
            "https://huggingface.co/philschmid/tiny-bert-sst2-distilled/resolve/874eb28543ea7a7df80b6158bbf772d203efcab6/tokenizer.json";
      sha256 = codes "99e552efd3b68340ef1b1106ea152526659a9c525992f008fe4c182a5a587234";
    }
    ∷ record {
      path = artifacts (codes "licenses/onnx-export-README.md");
      url =
          codes
            "https://huggingface.co/fxmarty/tiny-bert-sst2-distilled-onnx-subfolder/raw/d3017b38272765ae30e68f73de1fcb432bb97f3d/README.md";
      sha256 = codes "98b45ea81164d1e1a1dd82255207053b15cd6c69d922a1c5cf3387ce604d4b74";
    }
    ∷ record {
      path = artifacts (codes "licenses/source-model-README.md");
      url =
          codes
            "https://huggingface.co/philschmid/tiny-bert-sst2-distilled/raw/874eb28543ea7a7df80b6158bbf772d203efcab6/README.md";
      sha256 = codes "8b2aeb54de195d4023fdb47af43646271c9b354a6e853d3a41ed93b3f52d0b7d";
    }
    ∷ []
