-- ===== src/Tests/Listers.antt =====
-- Runs of the tasks of es3/sync.cpp that publish and print.
use extremes.Base.{
  ℕ, zero, suc, ◌≤◌, ◌≡◌, refl, true, false, [], ◌∷◌, ◌++◌, some, Bytes, codes, arith,
}
use extremes.Agenda.Worker.{run_task}
use extremes.Connection.Listing.{FileInfo}
use extremes.Download.{FileDesc}
use extremes.Errors.{Result, ok, throw, Exception, es3_exception, err_warn}
use extremes.Sync.Printing.{Out, rows, print_subdir, print_subdir-repeats}
use extremes.Sync.Publishing.{publish_subdir, plain_below, publish_subdir-plain_below}
use extremes.Sync.Schedule.{Lister}
use extremes.Sync.Schedule.Walking.{emptied, num_dirs, Lists}
use extremes.Sync.Tree.{S3Path, Entry, dir, no_dirs, subdir, S3Directory}

abbrev at_path : Bytes → S3Path
at_path path = record { zone = codes "s3"; bucket = codes "b"; path = path }

abbrev entry : Bytes → Bytes → Bytes × Entry S3Path Unit
entry path name = (name, record { absolute_name = at_path path; name = name; info = tt })

abbrev root : S3Directory
root =
    dir (at_path (codes "/")) []
      (entry (codes "/a") (codes "a") ∷ entry (codes "/b c") (codes "b c") ∷ [])
      (subdir (codes "d")
        (dir (at_path (codes "/d/")) (codes "d") (entry (codes "/d/e") (codes "e") ∷ []) no_dirs)
        no_dirs)

-- The root has a path of one character.
abbrev server : Lister
server (dir a n fs ds) = elim a.path [
  | [] ↦ (dir a n [] no_dirs, true)
  | c ∷ [] ↦ (
    dir a n (entry (codes "/a") (codes "a") ∷ entry (codes "/b c") (codes "b c") ∷ [])
        (subdir (codes "d") (dir (at_path (codes "/d/")) (codes "d") [] no_dirs) no_dirs),
    false,
  )
  | c ∷ e ∷ s ↦ (dir a n (entry (codes "/d/e") (codes "e") ∷ []) no_dirs, false)
]

root-Lists : Lists server root
unfolding Lists
root-Lists = (refl, ((refl, tt), tt))

root-few : num_dirs root ≤ 2
unfolding num_dirs
root-few = omega arith

publish_subdir-plain_below_example :
    publish_subdir [] [] (λ path. true) server 2 (emptied root)
    ≡ some (record { files = plain_below root; failed = 0 })
publish_subdir-plain_below_example =
    publish_subdir-plain_below (λ path. true) server (λ path. refl) 2 root root-few root-Lists

abbrev file : Bytes → Bytes × Entry S3Path FileInfo
file name = (
  name,
  record {
    absolute_name = at_path (codes "/" ++ name);
    name = name;
    info = record { size = 1; mtime_str = [] };
  },
)

abbrev desc : FileDesc
desc = record {
  mtime = 5;
  raw_size = 1;
  remote_size = 1;
  mode = 420;
  compressed = false;
  found = true;
}

abbrev timeout_ : Exception
timeout_ = es3_exception (record { code = err_warn; desc = codes "timeout" })

-- In the first round the file with the longer name cannot be described.
abbrev answers : ℕ → S3Path → Result FileDesc
answers zero p = elim p.path [
  | [] ↦ ok desc
  | a ∷ [] ↦ ok desc
  | a ∷ b ∷ [] ↦ ok desc
  | a ∷ b ∷ c ∷ s ↦ throw timeout_
]
answers (suc n) p = ok desc

abbrev nothing_yet : Out
nothing_yet = record { text = []; num_files = 0; scheduled = [] }

print_subdir-repeats_example :
    run_task
      (print_subdir answers
        (dir (at_path (codes "/")) [] (file (codes "a") ∷ file (codes "bc") ∷ []) no_dirs))
      (0, nothing_yet)
    ≡ (
      false,
      (
        2,
        record {
          text =
              rows (λ p. desc) (file (codes "a") ∷ [])
              ++ rows (λ p. desc) (file (codes "a") ∷ file (codes "bc") ∷ []);
          num_files = 3;
          scheduled = [];
        },
      ),
    )
print_subdir-repeats_example =
    print_subdir-repeats (λ p. desc) answers (at_path (codes "/")) [] (codes "bc")
      (file (codes "a") ∷ []) [] (file (codes "bc")).1 no_dirs timeout_ nothing_yet (refl, tt) refl
      refl (refl, (refl, tt))
