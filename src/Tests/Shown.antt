-- ===== src/Tests/Shown.antt =====
-- Runs of `do_cat` and `do_ls`, of es3/downloader.cpp and es3/commands.cpp.
use extremes.Base.{
  ℕ, zero, suc, ◌≡◌, refl, inl, inr, true, false, if◌then◌else◌, ◌==◌, List, [], ◌∷◌, Option, some,
  Bytes, bytes_cmp, codes, arith, All,
}
use extremes.Commands.{locate}
use extremes.Commands.Cat.{Runs, do_cat}
use extremes.Commands.Cat.Exits.{do_cat-failing}
use extremes.Commands.Objects.{ls_files, ls_dirs, do_ls}
use extremes.Commands.Objects.Descriptions.{IsKnown, AreListed, do_ls-ls_files}
use extremes.Connection.Listing.{FileInfo, Listed}
use extremes.Connection.Requests.{Environment, replied, done}
use extremes.Connection.Xml.{Nodes, node, sibling, no_nodes}
use extremes.Download.{FileDesc}
use extremes.Sync.Tree.{S3Path, Entry, dir, no_dirs, files_of, subdirs_of}

abbrev region_doc : Nodes
region_doc = sibling (node false (codes "LocationConstraint") no_nodes) no_nodes

-- A server for which every bucket is in the first zone.
abbrev env : Environment
env = record {
  use_ssl = false;
  api_key = codes "KEY";
  secret_key = codes "SECRET";
  date = codes "Thu";
  hmac_sha1 = λ key text. key;
  escape = λ s. s;
  perform = λ request. replied 200 [] [];
  parse_xml = λ body. some region_doc;
}

abbrev file : S3Path
file = record { zone = codes "s3"; bucket = codes "b"; path = codes "/f" }

file-located : locate env (codes "s3://b/f") ≡ done file
unfolding locate bytes_cmp
file-located = refl

abbrev one_failure : ℕ → ℕ
one_failure zero = 1
one_failure (suc run) = 0

-- Only the first run fails; each one after it has the file.
abbrev recovers : Runs
recovers = record {
  failures = one_failure;
  tasks_count = λ run. 0;
  content = λ run path. codes "text";
  writes = λ block. true;
}

do_cat-failing_example :
    do_cat env recovers (codes "s3://b/f" ∷ [])
    ≡ done (record { code = if recovers.tasks_count 6 == 0 then 6 else 4; output = [] })
do_cat-failing_example =
    do_cat-failing env recovers (codes "s3://b/f") [] file file-located (omega arith)

abbrev in_bucket : ℕ → S3Path
in_bucket n = record { zone = codes "s3"; bucket = codes "b"; path = n ∷ [] }

abbrev listed : List ℕ → List (Bytes × Entry S3Path FileInfo)
listed [] = []
listed (n ∷ ns) =
    (
      n ∷ [],
      record {
        absolute_name = in_bucket n;
        name = n ∷ [];
        info = record { size = n; mtime_str = [] };
      },
    )
    ∷ listed ns

abbrev numbers : List ℕ
numbers = 1 ∷ 2 ∷ 3 ∷ 4 ∷ 5 ∷ 6 ∷ 7 ∷ 8 ∷ 9 ∷ 10 ∷ 11 ∷ []

abbrev bucket : Listed
bucket = dir (in_bucket 0) [] (listed numbers) no_dirs

abbrev first_of : Bytes → ℕ
first_of [] = 0
first_of (n ∷ s) = n

-- Every file has its own number for a time.
abbrev info : S3Path → Option FileDesc
info p = some (record {
  mtime = first_of p.path;
  raw_size = 7;
  remote_size = 7;
  mode = 420;
  compressed = false;
  found = true;
})

abbrev paths : List ℕ → List S3Path
paths [] = []
paths (n ∷ ns) = in_bucket n ∷ paths ns

paths-IsKnown : (ns : List ℕ) → All (IsKnown info (codes "s3") (codes "b")) (paths ns)
paths-IsKnown [] = tt
paths-IsKnown (n ∷ ns) = (((refl, refl), (_, refl)), paths-IsKnown ns)

listed_later :
    (q : S3Path) (ps : List S3Path) (ns : List ℕ)
    → AreListed info (codes "s3") (codes "b") ps (listed ns)
    → AreListed info (codes "s3") (codes "b") (q ∷ ps) (listed ns)
listed_later q ps [] h = tt
listed_later q ps (n ∷ ns) h = ((h.0.0, inr h.0.1), listed_later q ps ns h.1)

paths-AreListed : (ns : List ℕ) → AreListed info (codes "s3") (codes "b") (paths ns) (listed ns)
paths-AreListed [] = tt
paths-AreListed (n ∷ ns) =
    (((refl, refl), inl refl), listed_later (in_bucket n) (paths ns) ns (paths-AreListed ns))

do_ls-ls_files_example :
    do_ls info (paths numbers) 0 bucket
    ≡ ls_files info (files_of bucket) (ls_dirs (subdirs_of bucket)) 0 0
do_ls-ls_files_example =
    do_ls-ls_files info (codes "s3") (codes "b") (paths numbers) bucket (paths-IsKnown numbers)
      (paths-AreListed numbers)
