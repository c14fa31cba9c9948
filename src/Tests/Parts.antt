-- ===== src/Tests/Parts.antt =====
-- Runs of es3/uploader.cpp's `part_upload_task`.
use extremes.Base.{ℕ, ◌≡◌, ◌≢◌, refl, arith, List, [], ◌∷◌, ◌++◌, Bytes, codes}
use extremes.Errors.{Result, ok, throw, std_exception}
use extremes.Upload.Parts.{
  Upload, UploadContent, uploading, waiting, finished, prepare_part, finish_part, assemble, starts,
  ends, AnyStep, usual, Reach, here, next, Finished,
}
use extremes.Upload.Parts.Lost.{assembly-lost}

abbrev answers : ℕ → Result Bytes
answers i = ok (codes "id")

abbrev accept : Bytes → List Bytes → Result (Unit {0})
accept upload_id etags = ok tt

abbrev refuse : Bytes → List Bytes → Result (Unit {0})
refuse upload_id etags = throw std_exception

abbrev with_id : ℕ → List Bytes → UploadContent
with_id done etags = record {
  upload_id = codes "id";
  num_parts = 2;
  num_completed = done;
  etags = etags;
}

abbrev one : Upload
one = record { content = with_id 0 ([] ∷ [] ∷ []); tasks = waiting ∷ uploading ∷ []; calls = [] }

abbrev both : Upload
both = record { content = with_id 0 ([] ∷ [] ∷ []); tasks = uploading ∷ uploading ∷ []; calls = [] }

abbrev second : Upload
second = record {
  content = with_id 1 ([] ∷ codes "b" ∷ []);
  tasks = uploading ∷ finished ∷ [];
  calls = [];
}

abbrev sent : Upload
sent = record {
  content = with_id 2 (codes "a" ∷ codes "b" ∷ []);
  tasks = finished ∷ finished ∷ [];
  calls = (codes "id", codes "a" ∷ codes "b" ∷ []) ∷ [];
}

abbrev refused : Upload
refused = record {
  content = with_id 2 (codes "a" ∷ codes "b" ∷ []);
  tasks = waiting ∷ finished ∷ [];
  calls = (codes "id", codes "a" ∷ codes "b" ∷ []) ∷ [];
}

abbrev again : Upload
again = record refused { tasks = uploading ∷ finished ∷ [] }

-- All tasks are finished, and the server has refused the only call.
abbrev over : Upload
over = record {
  content = with_id 3 (codes "a" ∷ codes "b" ∷ []);
  tasks = finished ∷ finished ∷ [];
  calls = (codes "id", codes "a" ∷ codes "b" ∷ []) ∷ [];
}

retries : Reach (AnyStep answers) refused over
unfolding prepare_part finish_part assemble
retries =
    let queued : Reach (AnyStep answers) refused again =
      next {t = refused} here (usual (starts 0 2 again.content refl refl refl)) in
    next {t = again} queued (
      usual (
        ends 0 (codes "a") accept (finish_part accept 0 (codes "a") again.content) refl refl refl
          refl))

abbrev refusal : Finished
refusal = record {
  content = refused.content;
  calls = (codes "id", codes "a" ∷ codes "b" ∷ []) ∷ [];
  result = throw std_exception;
}

refusal-run : finish_part refuse 0 (codes "a") second.content ≡ refusal
unfolding finish_part assemble
refusal-run = refl

refusal-calls : refusal.calls ≢ []
refusal-calls = λ e. ground arith

assembly-lost_example :
    AnyStep answers second refused × (over.calls ≡ second.calls ++ refusal.calls)
assembly-lost_example =
    assembly-lost answers refuse 0 (codes "a") std_exception second refused over refusal refl
      refusal-run refusal-calls refl refl retries
