-- ===== src/Commands/Totals.antt =====
-- es3/commands.cpp: `get_size` against the list of all files below a directory.
use extremes.Base.{
  ℕ, ◌+◌, ◌%◌, ◌^◌, ◌<◌, ◌≡◌, refl, sym, ap, ◌∙◌, List, [], ◌∷◌, ◌++◌, Bytes, arith, length,
  length-append,
}
use extremes.Base.Map.{Map}
use extremes.Commands.{StatStruct, later, count_files, get_size, get_sizes}
use extremes.Connection.Listing.{FileInfo, Listed}
use extremes.Sync.Tree.{S3Path, Entry, Dirs, dir, no_dirs, subdir}

abbrev infos : Map Bytes (Entry S3Path FileInfo) → List FileInfo
infos [] = []
infos ((k, f) ∷ files) = f.info ∷ infos files

-- All files below a directory, and how many directories there are.
abbrev mutual
  pub files_below : Listed → List FileInfo
  files_below (dir abs name files dirs) = infos files ++ files_in_dirs dirs

  pub files_in_dirs : Dirs S3Path FileInfo → List FileInfo
  files_in_dirs no_dirs = []
  files_in_dirs (subdir k d ds) = files_below d ++ files_in_dirs ds

abbrev mutual
  pub dirs_below : Listed → ℕ
  dirs_below (dir abs name files dirs) = dirs_in_dirs dirs

  pub dirs_in_dirs : Dirs S3Path FileInfo → ℕ
  dirs_in_dirs no_dirs = 0
  dirs_in_dirs (subdir k d ds) = 1 + dirs_below d + dirs_in_dirs ds

abbrev pub total : List FileInfo → ℕ
total [] = 0
total (f ∷ fs) = f.size + total fs

abbrev pub latest : Bytes → List FileInfo → Bytes
latest recent [] = recent
latest recent (f ∷ fs) = latest (later f.mtime_str recent) fs

-- The counts with these files and so many directories more.
abbrev pub plus : StatStruct → List FileInfo → ℕ → StatStruct
plus out fs n = record {
  size = (out.size + total fs) % 2 ^ 64;
  file_num = out.file_num + length fs;
  dir_num = out.dir_num + n;
  recent_timestamp = latest out.recent_timestamp fs;
}

total-append : (fs gs : List FileInfo) → total (fs ++ gs) ≡ total fs + total gs
total-append [] gs = omega arith
total-append (f ∷ fs) gs = omega (arith, total-append fs gs)

latest-append :
    (recent : Bytes) (fs gs : List FileInfo)
    → latest recent (fs ++ gs) ≡ latest (latest recent fs) gs
latest-append recent [] gs = refl
latest-append recent (f ∷ fs) gs = latest-append (later f.mtime_str recent) fs gs

abbrev counts : ℕ → ℕ → ℕ → Bytes → StatStruct
counts a c e r = record { size = a; file_num = c; dir_num = e; recent_timestamp = r }

counts-equal :
    (a b c d e f : ℕ) (r s : Bytes)
    → a ≡ b
    → c ≡ d
    → e ≡ f
    → r ≡ s
    → counts a c e r ≡ counts b d f s
counts-equal a b c d e f r s p q o t = rw (p, q, o, t) refl

plus-none : (out : StatStruct) → out.size < 2 ^ 64 → plus out [] 0 ≡ out
plus-none out h = counts-equal _ _ _ _ _ _ _ _ (omega arith) (omega arith) (omega arith) refl

plus-plus :
    (out : StatStruct) (fs gs : List FileInfo) (m n : ℕ)
    → plus (plus out fs m) gs n ≡ plus out (fs ++ gs) (m + n)
plus-plus out fs gs m n =
    let sum = total-append fs gs in
    let len = length-append fs gs in
    counts-equal _ _ _ _ _ _ _ _ (omega arith) (omega arith) (omega arith)
      (sym (latest-append out.recent_timestamp fs gs))

count_files-plus :
    (files : Map Bytes (Entry S3Path FileInfo)) (out : StatStruct)
    → out.size < 2 ^ 64
    → count_files files out ≡ plus out (infos files) 0
unfolding count_files
count_files-plus [] out h = sym (plus-none out h)
count_files-plus ((k, f) ∷ files) out h =
    count_files-plus files _ (omega arith)
    ∙ counts-equal _ _ _ _ _ _ _ _ (omega arith) (omega arith) refl refl

mutual
  unfolding get_size get_sizes

  get_size-plus :
      (d : Listed) (out : StatStruct)
      → out.size < 2 ^ 64
      → get_size d out ≡ plus out (files_below d) (dirs_below d)
  get_size-plus (dir abs name files dirs) out h =
      ap (get_sizes dirs) (count_files-plus files out h)
      ∙ get_sizes-plus dirs (plus out (infos files) 0) (omega arith)
      ∙ plus-plus out (infos files) (files_in_dirs dirs) 0 (dirs_in_dirs dirs)
      ∙ ap (plus out (infos files ++ files_in_dirs dirs)) (omega arith)

  get_sizes-plus :
      (ds : Dirs S3Path FileInfo) (out : StatStruct)
      → out.size < 2 ^ 64
      → get_sizes ds out ≡ plus out (files_in_dirs ds) (dirs_in_dirs ds)
  get_sizes-plus no_dirs out h = sym (plus-none out h)
  get_sizes-plus (subdir k d ds) out h =
      let one = record out { dir_num = out.dir_num + 1 } in
      ap (get_sizes ds) (get_size-plus d one h)
      ∙ get_sizes-plus ds (plus one (files_below d) (dirs_below d)) (omega arith)
      ∙ plus-plus one (files_below d) (files_in_dirs ds) (dirs_below d) (dirs_in_dirs ds)
      ∙ counts-equal _ _ _ _ _ _ _ _ refl refl (omega arith) refl

-- The totals that `du` prints are those of the list of all files below the directory: their sizes
-- together in 64 bits, their number and the latest of their times; and the number of the directories.
pub get_size-total :
    (d : Listed)
    → get_size d (record { size = 0; file_num = 0; dir_num = 0; recent_timestamp = [] }) ≡ record {
      size = total (files_below d) % 2 ^ 64;
      file_num = length (files_below d);
      dir_num = dirs_below d;
      recent_timestamp = latest [] (files_below d);
    }
get_size-total d =
    get_size-plus d (counts 0 0 0 []) (omega arith)
    ∙ counts-equal _ _ _ _ _ _ _ _ (omega arith) (omega arith) (omega arith) refl
