-- ===== src/Upload/Parts.antt =====
-- es3/uploader.cpp: `part_upload_task`, the tasks that send the segments of one file and share its
-- `upload_content`. A counter of attempts is not wrapped at 2 ^ 64.
pub mod Delivery
pub mod Assembly
pub mod Invariant
pub mod Lost
use extremes.Base.{
  ℕ, suc, ◌≡◌, Bool, true, false, not, ◌&&◌, List, [], ◌∷◌, ◌++◌, Option, none, some, Bytes, ltb,
  ◌==◌, if◌then◌else◌, length, get_elem?, set, replicate,
}
use extremes.Errors.{Result, ok, throw, Exception, std_exception}

-- `upload_content`, less the connection, the remote path and the headers, which do not change.
pub record UploadContent : Type 0 where
  pub upload_id : Bytes
  pub num_parts : ℕ
  pub num_completed : ℕ
  pub etags : List Bytes

-- A call of `complete_multipart`: the upload id and the etags.
abbrev pub Completion : Type 0
Completion = Bytes × List Bytes

abbrev pub has_no_bytes : Bytes → Bool
has_no_bytes [] = true
has_no_bytes (c ∷ s) = false

-- The first block of `operator()` that takes the lock; `answer` is what `initiate_multipart` gives
-- if it is called.
unfoldable pub prepare_part : Result Bytes → UploadContent → UploadContent × Result (Unit {0})
prepare_part answer c =
    if ltb 1 c.num_parts && has_no_bytes c.upload_id
    then (elim answer [
      | ok upload_id ↦ (record c { upload_id = upload_id }, ok tt)
      | throw e ↦ (c, throw e)
    ])
    else (c, ok tt)

-- The content as the last block leaves it, the calls of `complete_multipart` that it made, and how
-- it ended.
pub record Finished : Type 0 where
  pub content : UploadContent
  pub calls : List Completion
  pub result : Result (Unit {0})

-- The test for the last part; `complete` stands for the call of `complete_multipart`.
unfoldable pub assemble : (Bytes → List Bytes → Result (Unit {0})) → UploadContent → Finished
assemble complete c =
    if c.num_completed == c.num_parts && not (has_no_bytes c.upload_id)
    then record {
      content = c;
      calls = (c.upload_id, c.etags) ∷ [];
      result = complete c.upload_id c.etags;
    }
    else record { content = c; calls = []; result = ok tt }

-- The last block of `operator()`, once `upload_data` has given the etag of part `num`.
unfoldable pub finish_part :
    (Bytes → List Bytes → Result (Unit {0})) → ℕ → Bytes → UploadContent → Finished
unfolding assemble
finish_part complete num etag c =
    let counted = record c { num_completed = suc c.num_completed } in
    if ltb num (length c.etags)
    then assemble complete (record counted { etags = set c.etags num etag })
    else record { content = counted; calls = []; result = throw std_exception }

-- Where the task of a part stands: queued, between the two blocks, or finished without an exception,
-- after which the agenda does not run it again.
pub data Phase : Type 0 where
  waiting uploading finished : Phase

pub record Upload : Type 0 where
  pub content : UploadContent
  pub tasks : List Phase
  pub calls : List Completion

-- After `start_upload` with `n` segments.
abbrev pub fresh : ℕ → Upload
fresh n = record {
  content = record { upload_id = []; num_parts = n; num_completed = 0; etags = replicate n [] };
  tasks = replicate n waiting;
  calls = [];
}

-- One step of one task, in any order of the tasks; `answers` are what the calls of
-- `initiate_multipart` give. A task whose call throws goes back to the queue.
pub data Step (answers : ℕ → Result Bytes) (w u : Upload) : Type 0 where
  starts :
      (k i : ℕ) (c : UploadContent)
      → get_elem? w.tasks k ≡ some waiting
      → prepare_part (answers i) w.content ≡ (c, ok tt)
      → u ≡ record w { content = c; tasks = set w.tasks k uploading }
      → Step answers w u
  cannot_start :
      (k i : ℕ) (c : UploadContent) (e : Exception)
      → get_elem? w.tasks k ≡ some waiting
      → prepare_part (answers i) w.content ≡ (c, throw e)
      → u ≡ record w { content = c }
      → Step answers w u
  cannot_upload :
      (k : ℕ)
      → get_elem? w.tasks k ≡ some uploading
      → u ≡ record w { tasks = set w.tasks k waiting }
      → Step answers w u
  ends :
      (k : ℕ) (etag : Bytes) (complete : Bytes → List Bytes → Result (Unit {0})) (f : Finished)
      → get_elem? w.tasks k ≡ some uploading
      → finish_part complete k etag w.content ≡ f
      → f.result ≡ ok tt
      → u
        ≡ record { content = f.content; tasks = set w.tasks k finished; calls = w.calls ++ f.calls }
      → Step answers w u

-- As before, and the last block can throw too.
pub data AnyStep (answers : ℕ → Result Bytes) (w u : Upload) : Type 0 where
  usual : Step answers w u → AnyStep answers w u
  cannot_end :
      (k : ℕ) (etag : Bytes) (complete : Bytes → List Bytes → Result (Unit {0})) (f : Finished)
      (e : Exception)
      → get_elem? w.tasks k ≡ some uploading
      → finish_part complete k etag w.content ≡ f
      → f.result ≡ throw e
      → u
        ≡ record { content = f.content; tasks = set w.tasks k waiting; calls = w.calls ++ f.calls }
      → AnyStep answers w u

pub data Reach {ℓ} {S : Type ℓ} (R : S → S → Type ℓ) (s : S) : S → Type ℓ where
  here : Reach R s s
  next : {t u : S} → Reach R s t → R t u → Reach R s u
