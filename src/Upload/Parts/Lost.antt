-- ===== src/Upload/Parts/Lost.antt =====
-- es3/uploader.cpp: the tasks of one file after `complete_multipart` has thrown.
use extremes.Base.{
  ℕ, ◌≤◌, ◌≡◌, ◌≢◌, refl, ap, ◌∙◌, List, [], ◌++◌, some, Bytes, arith, get_elem?, set,
}
use mathlib.Core.List.{append-nil}
use extremes.Errors.{Result, ok, throw, Exception}
use extremes.Upload.Parts.{
  UploadContent, Upload, uploading, waiting, starts, cannot_start, cannot_upload, ends, AnyStep,
  usual, cannot_end, Reach, here, next, prepare_part, finish_part, assemble, Finished,
}

abbrev IsPast : UploadContent → Type 0
IsPast c = c.num_parts ≤ c.num_completed

prepare_part-IsPast :
    (answer : Result Bytes) (c d : UploadContent) (r : Result (Unit {0}))
    → IsPast c
    → prepare_part answer c ≡ (d, r)
    → IsPast d
unfolding prepare_part
prepare_part-IsPast (ok upload_id) c d r h e = ground arith
prepare_part-IsPast (throw x) c d r h e = ground arith

finish_part-IsPast :
    (complete : Bytes → List Bytes → Result (Unit {0})) (k : ℕ) (etag : Bytes) (c : UploadContent)
    (f : Finished)
    → IsPast c
    → finish_part complete k etag c ≡ f
    → IsPast f.content × (f.calls ≡ [])
unfolding finish_part assemble
finish_part-IsPast complete k etag c f h e = (ground arith, ground arith)

finish_part-last :
    (complete : Bytes → List Bytes → Result (Unit {0})) (k : ℕ) (etag : Bytes) (c : UploadContent)
    (f : Finished)
    → finish_part complete k etag c ≡ f
    → f.calls ≢ []
    → IsPast f.content
unfolding finish_part assemble
finish_part-last complete k etag c f e h = ground arith

module _ (answers : ℕ → Result Bytes) where
  step-quiet :
      (w u : Upload)
      → IsPast w.content
      → AnyStep answers w u
      → IsPast u.content × (u.calls ≡ w.calls)
  step-quiet w u h (usual (starts k i c t p e)) =
      rw e (prepare_part-IsPast (answers i) w.content c (ok tt) h p, refl)
  step-quiet w u h (usual (cannot_start k i c x t p e)) =
      rw e (prepare_part-IsPast (answers i) w.content c (throw x) h p, refl)
  step-quiet w u h (usual (cannot_upload k t e)) = rw e (h, refl)
  step-quiet w u h (usual (ends k etag complete f t p r e)) =
      let (past, quiet) = finish_part-IsPast complete k etag w.content f h p in
      rw (e, quiet) (past, append-nil w.calls)
  step-quiet w u h (cannot_end k etag complete f x t p r e) =
      let (past, quiet) = finish_part-IsPast complete k etag w.content f h p in
      rw (e, quiet) (past, append-nil w.calls)

  Reach-quiet :
      (w u : Upload)
      → IsPast w.content
      → Reach (AnyStep answers) w u
      → IsPast u.content × (u.calls ≡ w.calls)
  Reach-quiet w u h here = (h, refl)
  Reach-quiet w u h (next {t = t} r s) =
      let (past, quiet) = Reach-quiet w t h r in
      let (after, still) = step-quiet t u past s in (after, still ∙ quiet)

-- When the last block of a task has called `complete_multipart` and thrown, that call is the last one:
-- the task is queued again, but whatever the tasks of the file do from then on, in any order and
-- however their calls end, `complete_multipart` is not called again.
pub assembly-lost :
    (answers : ℕ → Result Bytes) (complete : Bytes → List Bytes → Result (Unit {0})) (k : ℕ)
    (etag : Bytes) (e : Exception) (w u v : Upload) (f : Finished)
    → get_elem? w.tasks k ≡ some uploading
    → finish_part complete k etag w.content ≡ f
    → f.calls ≢ []
    → f.result ≡ throw e
    → u ≡ record { content = f.content; tasks = set w.tasks k waiting; calls = w.calls ++ f.calls }
    → Reach (AnyStep answers) u v
    → AnyStep answers w u × (v.calls ≡ w.calls ++ f.calls)
assembly-lost answers complete k etag e w u v f t p called r same reach =
    let past : IsPast u.content = rw same (finish_part-last complete k etag w.content f p called) in
    let (still, quiet) = Reach-quiet answers u v past reach in
    (cannot_end k etag complete f e t p r same, quiet ∙ ap (λ x. x.calls) same)
