-- ===== src/Sync/Printing.antt =====
-- es3/sync.cpp: `print_subdir_task`, which lists a directory for `lsr`.
use extremes.Base.{
  ℕ, suc, ◌+◌, ◌≡◌, sym, ap, ◌∙◌, true, false, List, [], ◌∷◌, ◌++◌, Bytes, All, length, arith,
}
use mathlib.Core.List.{append_assoc, append-nil}
use extremes.Agenda.Worker.{Body, run_task, is_retried, attempts-again, attempts-ok}
use extremes.Base.Map.{Map}
use extremes.Commands.Objects.{row}
use extremes.Connection.Listing.{FileInfo, Listed}
use extremes.Download.{FileDesc}
use extremes.Errors.{Result, ok, throw, Exception}
use extremes.Sync.Tree.{S3Path, Entry, Dirs, dir, no_dirs, subdir, files_of, subdirs_of}

-- What a task has done so far: the lines on standard output, `*result_`, and the tasks that it has
-- scheduled.
pub record Out : Type 0 where
  pub text : Bytes
  pub num_files : ℕ
  pub scheduled : List S3Path

abbrev pub paths_of : Dirs S3Path FileInfo → List S3Path
paths_of no_dirs = []
paths_of (subdir _ (dir abs n fs ds) more) = abs ∷ paths_of more

abbrev pub print_file : S3Path → FileDesc → Out → Out
print_file path desc out = record out {
  text = out.text ++ row path desc;
  num_files = out.num_files + 1;
}

-- The loop over the files, which ends where `find_mtime_and_size` throws.
unfoldable pub print_files :
    (S3Path → Result FileDesc) → Map Bytes (Entry S3Path FileInfo) → Out → Result (Unit {0}) × Out
print_files describe [] out = (ok tt, out)
print_files describe ((_, f) ∷ files) out = elim (describe f.absolute_name) [
  | throw e ↦ (throw e, out)
  | ok desc ↦ print_files describe files (print_file f.absolute_name desc out)
]

-- The task on a directory whose listing succeeds, with the answers of the server in each round; the
-- number counts the rounds. The options that include and exclude paths are not looked at.
unfoldable pub print_subdir : (ℕ → S3Path → Result FileDesc) → Listed → Body (ℕ × Out)
unfolding print_files
print_subdir describe d (round, out) =
    let (r, next) =
      print_files (describe round) (files_of d)
        (record out { scheduled = out.scheduled ++ paths_of (subdirs_of d) }) in
    (r, (round + 1, next))

-- A path of `lsr` puts the task for its directory on the queue.
abbrev schedule_recursive_list : S3Path → Out → Out
schedule_recursive_list remote out = record out { scheduled = out.scheduled ++ remote ∷ [] }

-- All rows of a list of files.
abbrev pub rows : (S3Path → FileDesc) → Map Bytes (Entry S3Path FileInfo) → Bytes
rows describe [] = []
rows describe ((_, f) ∷ files) =
    row f.absolute_name (describe f.absolute_name) ++ rows describe files

abbrev pub AreDescribed :
    (S3Path → Result FileDesc) → (S3Path → FileDesc) → Map Bytes (Entry S3Path FileInfo) → Type 0
AreDescribed describe descs =
    All (λ e. describe (e.1.absolute_name) ≡ ok (descs (e.1.absolute_name)))

module _ (descs : S3Path → FileDesc) where
  abbrev pub printed_all : Map Bytes (Entry S3Path FileInfo) → Out → Out
  printed_all files out = record out {
    text = out.text ++ rows descs files;
    num_files = out.num_files + length files;
  }

  printed_none : (out : Out) → printed_all [] out ≡ out
  printed_none out =
      let text = append-nil out.text in
      let count : out.num_files + 0 ≡ out.num_files = omega arith in
      λ i. record out { text = text i; num_files = count i }

  printed-next :
      (f : Entry S3Path FileInfo) (files : Map Bytes (Entry S3Path FileInfo)) (k : Bytes)
      (out : Out)
      → printed_all files (print_file f.absolute_name (descs f.absolute_name) out)
        ≡ printed_all ((k, f) ∷ files) out
  printed-next f files k out =
      let text =
        append_assoc out.text (row f.absolute_name (descs f.absolute_name)) (rows descs files) in
      let count : (out.num_files + 1) + length files ≡ out.num_files + suc (length files) =
        omega arith in
      λ i. record out { text = text i; num_files = count i }

  print_files-all :
      (describe : S3Path → Result FileDesc) (files : Map Bytes (Entry S3Path FileInfo)) (out : Out)
      → AreDescribed describe descs files
      → print_files describe files out ≡ (ok tt, printed_all files out)
  unfolding print_files
  print_files-all describe [] out h = ap (λ o. (ok tt, o)) (sym (printed_none out))
  print_files-all describe ((k, f) ∷ files) out h =
      rw (h.0, print_files)
        (print_files-all describe files (print_file f.absolute_name (descs f.absolute_name) out) h.1
          ∙ ap (λ o. (ok tt, o)) (printed-next f files k out))

  print_files-stops :
      (describe : S3Path → Result FileDesc) (files : Map Bytes (Entry S3Path FileInfo)) (k : Bytes)
      (bad : Entry S3Path FileInfo) (later : Map Bytes (Entry S3Path FileInfo)) (e : Exception)
      (out : Out)
      → AreDescribed describe descs files
      → describe bad.absolute_name ≡ throw e
      → print_files describe (files ++ (k, bad) ∷ later) out ≡ (throw e, printed_all files out)
  unfolding print_files
  print_files-stops describe [] k bad later e out h w =
      rw (w, print_files) (ap (λ o. (throw e, o)) (sym (printed_none out)))
  print_files-stops describe ((j, f) ∷ files) k bad later e out h w =
      rw (h.0, print_files)
        (print_files-stops describe files k bad later e
            (print_file f.absolute_name (descs f.absolute_name) out) h.1 w
          ∙ ap (λ o. (throw e, o)) (printed-next f files j out))

  -- When the description of one file of a directory fails in the first round with an error after
  -- which a task is tried again, and the second round gets all of them, the task is done, and has
  -- printed and counted the files before that one twice, and scheduled every subdirectory twice.
  pub print_subdir-repeats :
      (describe : ℕ → S3Path → Result FileDesc) (a : S3Path) (n k : Bytes)
      (files later : Map Bytes (Entry S3Path FileInfo)) (bad : Entry S3Path FileInfo)
      (ds : Dirs S3Path FileInfo) (e : Exception) (out : Out)
      → AreDescribed (describe 0) descs files
      → describe 0 bad.absolute_name ≡ throw e
      → is_retried e ≡ true
      → AreDescribed (describe 1) descs (files ++ (k, bad) ∷ later)
      → run_task (print_subdir describe (dir a n (files ++ (k, bad) ∷ later) ds)) (0, out) ≡ (
        false,
        (
          2,
          record {
            text = (out.text ++ rows descs files) ++ rows descs (files ++ (k, bad) ∷ later);
            num_files = (out.num_files + length files) + length (files ++ (k, bad) ∷ later);
            scheduled = (out.scheduled ++ paths_of ds) ++ paths_of ds;
          },
        ),
      )
  unfolding run_task print_subdir
  print_subdir-repeats describe a n k files later bad ds e out h w again all =
      let body = print_subdir describe (dir a n (files ++ (k, bad) ∷ later) ds) in
      let stopped : Out = record {
        text = out.text ++ rows descs files;
        num_files = out.num_files + length files;
        scheduled = out.scheduled ++ paths_of ds;
      } in
      let first : body (0, out) ≡ (throw e, (1, stopped)) =
        ap (λ r. (r.0, (1, r.1)))
          (print_files-stops (describe 0) files k bad later e
            (record out { scheduled = out.scheduled ++ paths_of ds }) h w) in
      let second =
        ap (λ r. (r.0, (2, r.1)))
          (print_files-all (describe 1) (files ++ (k, bad) ∷ later)
            (record stopped { scheduled = stopped.scheduled ++ paths_of ds }) all) in
      attempts-again 9 body (0, out) (1, stopped) e first again
      ∙ attempts-ok 8 body (1, stopped) _ second
