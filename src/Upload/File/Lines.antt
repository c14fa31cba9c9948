-- ===== src/Upload/File/Lines.antt =====
-- es3/uploader.cpp and es3/connection.cpp: each header that an upload sends, as a line of a reply.
use extremes.Base.{
  ℕ, ◌%◌, ◌^◌, ◌<◌, ◌≡◌, refl, Bool, true, false, List, [], ◌∷◌, ◌++◌, map, Bytes, codes, bytes_cmp,
  arith, if◌then◌else◌,
}
use extremes.Common.{int_to_string, is_empty, trim, is_space, atoll, strcasecmp, assign_header}
use extremes.Common.Trim.{trim-value}
use extremes.Common.Decimal.{int_to_string-IsPlain, int_to_string-filled, atoll-int_to_string}
use extremes.Connection.Headers.{find_colon, find_header, find_mtime}
use extremes.Download.{FileDesc}
use extremes.Upload.File.{LocalFile, upload_headers}

-- A header as its line in a reply.
abbrev pub header_line : Bytes × Bytes → Bytes
header_line (k, v) = k ++ codes ": " ++ v ++ codes "\r\n"

-- What `find_mtime` finds on a line with the value `v`, and what it puts in its field.
abbrev pub value : Bytes → Bytes
value v = trim (b' ' ∷ v ++ codes "\r\n")

abbrev pub number : Bytes → ℕ → ℕ
number v old = if is_empty (value v) then old else atoll (value v)

module _ (v : Bytes) (info : FileDesc) where
  pub mtime-line :
      find_mtime (header_line (codes "x-amz-meta-last-modified", v)) info
      ≡ record info { mtime = number v info.mtime }
  unfolding find_mtime find_header find_colon trim is_space bytes_cmp
  mtime-line = refl

  pub size-line :
      find_mtime (header_line (codes "x-amz-meta-size", v)) info
      ≡ record info { raw_size = number v info.raw_size }
  unfolding find_mtime find_header find_colon trim is_space bytes_cmp
  size-line = refl

  pub length-line :
      find_mtime (header_line (codes "Content-Length", v)) info
      ≡ record info { remote_size = number v info.remote_size }
  unfolding find_mtime find_header find_colon trim is_space bytes_cmp
  length-line = refl

  pub mode-line :
      find_mtime (header_line (codes "x-amz-meta-file-mode", v)) info
      ≡ record info { mode = if is_empty (value v) then info.mode else atoll (value v) % 2 ^ 32 }
  unfolding find_mtime find_header find_colon trim is_space bytes_cmp
  mode-line = refl

  pub type-line : find_mtime (header_line (codes "Content-Type", v)) info ≡ info
  unfolding find_mtime find_header find_colon trim is_space bytes_cmp
  type-line = refl

  pub encoding-line : find_mtime (header_line (codes "Content-Encoding", v)) info ≡ info
  unfolding find_mtime find_header find_colon trim is_space bytes_cmp
  encoding-line = refl

pub compressed-line :
    (b : Bool) (info : FileDesc)
    → find_mtime
        (header_line (codes "x-amz-meta-compressed", if b then codes "true" else codes "false"))
        info
      ≡ record info { compressed = if b then true else info.compressed }
unfolding find_mtime find_header find_colon trim is_space bytes_cmp
compressed-line true info = refl
compressed-line false info = refl

pub number-read : (n old : ℕ) → n < 2 ^ 64 → number (int_to_string n) old ≡ n
number-read n old h =
    rw
      (
        trim-value (int_to_string n) (int_to_string-IsPlain n),
        int_to_string-filled n,
        atoll-int_to_string n h,
      )
      refl

pub mode-read :
    (n old : ℕ)
    → n < 2 ^ 32
    → (if is_empty (value (int_to_string n)) then old else atoll (value (int_to_string n)) % 2 ^ 32)
      ≡ n
mode-read n old h =
    rw
      (
        trim-value (int_to_string n) (int_to_string-IsPlain n),
        int_to_string-filled n,
        atoll-int_to_string n (omega arith),
      )
      (omega arith)

abbrev pub stored : LocalFile → Bool → ℕ → List Bytes
stored fl do_compress remote_size =
    map header_line (upload_headers fl do_compress)
    ++ header_line (codes "Content-Length", int_to_string remote_size) ∷ []

pub headers-compressed :
    (fl : LocalFile)
    → upload_headers fl true
      ≡ (codes "Content-Encoding", codes "gzip")
        ∷ (codes "Content-Type", fl.mime)
        ∷ (codes "x-amz-meta-compressed", codes "true")
        ∷ (codes "x-amz-meta-file-mode", int_to_string fl.mode)
        ∷ (codes "x-amz-meta-last-modified", int_to_string fl.mtime)
        ∷ (codes "x-amz-meta-size", int_to_string fl.size)
        ∷ []
unfolding upload_headers assign_header strcasecmp bytes_cmp
headers-compressed fl = refl

pub headers-plain :
    (fl : LocalFile)
    → upload_headers fl false
      ≡ (codes "Content-Type", fl.mime)
        ∷ (codes "x-amz-meta-compressed", codes "false")
        ∷ (codes "x-amz-meta-file-mode", int_to_string fl.mode)
        ∷ (codes "x-amz-meta-last-modified", int_to_string fl.mtime)
        ∷ (codes "x-amz-meta-size", int_to_string fl.size)
        ∷ []
unfolding upload_headers assign_header strcasecmp bytes_cmp
headers-plain fl = refl
