-- ===== src/Upload/File.antt =====
-- es3/uploader.cpp: `file_uploader`, which decides whether a file is sent and with which headers.
pub mod Lines
pub mod Carried
pub mod Effects
pub mod Stored
use extremes.Base.{
  ℕ, Bool, true, false, not, ◌&&◌, List, [], ◌∷◌, ◌++◌, Bytes, codes, ◌==◌, if◌then◌else◌,
}
use extremes.Common.{HeaderMap, assign_header, int_to_string}
use extremes.Download.{FileDesc}

-- What the function reads of the local file: its time, its size, its permissions, the answer of
-- `should_compress` and the type for its extension.
pub record LocalFile : Type 0 where
  pub mtime : ℕ
  pub size : ℕ
  pub mode : ℕ
  pub pays : Bool
  pub mime : Bytes

-- Nothing to do; or the headers, and the file goes to `file_compressor` or to `start_upload`.
pub data Begun : Type 0 where
  up_to_date : Begun
  compresses sends : HeaderMap → Begun

-- `hmap`
unfoldable pub upload_headers : LocalFile → Bool → HeaderMap
unfolding assign_header int_to_string
upload_headers fl do_compress =
    let compressed =
      assign_header (codes "x-amz-meta-compressed")
        (if do_compress then codes "true" else codes "false") [] in
    let typed = assign_header (codes "Content-Type") fl.mime compressed in
    let encoded =
      if do_compress
      then assign_header (codes "Content-Encoding") (codes "gzip") typed
      else typed in
    assign_header (codes "x-amz-meta-file-mode") (int_to_string fl.mode) (
      assign_header (codes "x-amz-meta-size") (int_to_string fl.size)
        (assign_header (codes "x-amz-meta-last-modified") (int_to_string fl.mtime) encoded))

-- `file_uploader::operator()`, with what `find_mtime_and_size` gives and the option `do_compression_`.
unfoldable pub file_uploader : FileDesc → LocalFile → Bool → Begun
unfolding upload_headers
file_uploader desc fl do_compression =
    let do_compress = fl.pays && do_compression in
    if not (desc.mtime == 0) && desc.mtime == fl.mtime && desc.raw_size == fl.size
    then up_to_date
    else if do_compress
    then compresses (upload_headers fl do_compress)
    else sends (upload_headers fl do_compress)
