-- ===== src/Connection/Headers.antt =====
-- es3/connection.cpp: the header lines of a reply.
use extremes.Base.{
  ℕ, suc, ◌%◌, ◌^◌, true, false, not, List, [], ◌∷◌, Option, none, some, Bytes, codes, ◌==◌,
  if◌then◌else◌, take, drop, bytes_key, ◌=k◌,
}
use extremes.Common.{is_empty, trim, lower, atoll}
use extremes.Download.{FileDesc}

-- `line.find(':')`
unfoldable pub find_colon : Bytes → Option ℕ
find_colon [] = none
find_colon (c ∷ s) = elim (c == b':') [
  | true ↦ some 0
  | false ↦ elim (find_colon s) [ none ↦ none | some pos ↦ some (suc pos) ]
]

-- The value of the header on this line, if it has this name.
unfoldable pub find_header : Bytes → Bytes → Bytes
unfolding find_colon trim
find_header line_raw header_name =
    let line = lower line_raw in
    elim (find_colon line) [
      | none ↦ []
      | some pos ↦
          let name = trim (take pos line) in
          let val = trim (drop (suc pos) line_raw) in if name =k header_name then val else []
    ]

-- One header line of the reply to a HEAD request.
unfoldable pub find_mtime : Bytes → FileDesc → FileDesc
unfolding find_header atoll
find_mtime line info =
    let mtime = find_header line (codes "x-amz-meta-last-modified") in
    let ln = find_header line (codes "x-amz-meta-size") in
    let ln2 = find_header line (codes "content-length") in
    let cmpr = find_header line (codes "x-amz-meta-compressed") in
    let md = find_header line (codes "x-amz-meta-file-mode") in
    record info {
      mtime = if is_empty mtime then info.mtime else atoll mtime;
      raw_size = if is_empty ln then info.raw_size else atoll ln;
      remote_size = if is_empty ln2 then info.remote_size else atoll ln2;
      compressed = if cmpr =k codes "true" then true else info.compressed;
      mode = if is_empty md then info.mode else atoll md % 2 ^ 32;
    }

unfoldable pub find_mtimes : List Bytes → FileDesc → FileDesc
unfolding find_mtime
find_mtimes [] info = info
find_mtimes (line ∷ lines) info = find_mtimes lines (find_mtime line info)

-- One header line of the reply to a PUT request.
unfoldable pub find_etag : Bytes → Bytes → Bytes
unfolding find_header
find_etag line etag =
    let found = find_header line (codes "etag") in if is_empty found then etag else found

-- `file_desc result={0}` and the fields set behind it; the mode is 0664.
abbrev pub no_desc : FileDesc
no_desc = record {
  mtime = 0;
  raw_size = 0;
  remote_size = 0;
  mode = 436;
  compressed = false;
  found = false;
}

-- `find_mtime_and_size`, for the code and the header lines of the reply.
unfoldable pub find_mtime_and_size : ℕ → List Bytes → FileDesc
unfolding find_mtimes
find_mtime_and_size code lines =
    let result = find_mtimes lines no_desc in
    record result {
      found = not (code == 404);
      raw_size = if result.raw_size == 0 then result.remote_size else result.raw_size;
    }
