-- ===== src/Paths.antt =====
-- es3/connection.h and es3/connection.cpp: the URL of an `s3_path`.
pub mod RoundTrip
use extremes.Base.{
  ℕ, Bool, true, false, ◌&&◌, ◌||◌, List, [], ◌∷◌, ◌++◌, Option, none, some, Bytes, codes, ◌==◌,
  if◌then◌else◌,
}
use extremes.Errors.{Result, ok, throw, err, err_fatal, std_exception, ◌>>◌}
use extremes.Sync.Tree.{S3Path}

-- `operator <<`
abbrev pub print_path : S3Path → Bytes
print_path p = codes "s3://" ++ p.bucket ++ p.path

-- `url.find("s3://")!=0` and `substr` behind the prefix.
unfoldable pub strip_prefix : Bytes → Bytes → Option Bytes
strip_prefix [] s = some s
strip_prefix (x ∷ xs) [] = none
strip_prefix (x ∷ xs) (c ∷ s) = if c == x then strip_prefix xs s else none

-- What stands before the first slash, and the rest from it on.
unfoldable pub split_slash : Bytes → Bytes × Option Bytes
split_slash [] = ([], none)
split_slash (c ∷ s) =
    let (front, rest) = split_slash s in if c == b'/' then ([], some (c ∷ s)) else (c ∷ front, rest)

-- `find("//")!=npos`
abbrev pub has_double_slash : Bytes → Bool
has_double_slash [] = false
has_double_slash (c ∷ []) = false
has_double_slash (c ∷ d ∷ s) = c == b'/' && d == b'/' || has_double_slash (d ∷ s)

-- The last check, on the path that was cut off.
unfoldable pub check_path : Bytes → Bytes → Bytes → Result S3Path
check_path url bucket path =
    if has_double_slash path
    then (err err_fatal (codes "Malformed S3 URL - invalid '//' combination: " ++ url)
        >> ok (record { zone = []; bucket = bucket; path = path }))
    else ok (record { zone = []; bucket = bucket; path = path })

unfoldable pub parse_split : Bytes → Bytes × Option Bytes → Result S3Path
unfolding check_path
parse_split url ([], some path) =
    err err_fatal (codes "Malformed S3 URL - no bucket name: " ++ url) >> check_path url [] path
parse_split url (c ∷ bucket, some path) = check_path url (c ∷ bucket) path
parse_split url (bucket, none) = check_path url bucket (codes "/")

unfoldable pub parse_path : Bytes → Result S3Path
unfolding strip_prefix split_slash parse_split
parse_path url = elim (strip_prefix (codes "s3://") url) [
  | none ↦ throw std_exception
  | some bucket_and_path ↦ parse_split url (split_slash bucket_and_path)
]
