-- ===== src/Download.antt =====
-- es3/downloader.cpp: the plan of a download, and the segments that are fetched and written.
pub mod Writing
pub mod Whole
pub mod Finish
use extremes.Base.{
  ℕ, zero, suc, ◌+◌, ◌-◌, ◌*◌, ◌^◌, ◌%◌, min, Bool, true, false, not, ◌&&◌, List, [], ◌∷◌, ◌++◌,
  Option, none, some, Bytes, ltb, ◌==◌, if◌then◌else◌, take, drop, length, replicate,
}
use extremes.Segments.{segment_count, parts, range}

-- `file_desc`
pub record FileDesc : Type 0 where
  pub mtime : ℕ
  pub raw_size : ℕ
  pub remote_size : ℕ
  pub mode : ℕ
  pub compressed : Bool
  pub found : Bool

-- `download_content`, with the file on the disk that `local_file_` names; `finished` counts the runs
-- of the block that ends a download.
pub record Content : Type 0 where
  pub num_segments : ℕ
  pub segments_read : ℕ
  pub remote_size : ℕ
  pub local_file : Bytes
  pub finished : ℕ

abbrev pub max_segments : ℕ
max_segments = 9999

-- What stands at `path_`: a file has its time and its size.
pub data Target : Type 0 where
  nothing_there directory_there : Target
  file_there : ℕ → ℕ → Target

-- `bf::remove_all`, which is taken to succeed, where `delete_dir_` is set.
abbrev pub clear : Bool → Target → Target
clear true target = nothing_there
clear false target = target

-- `mtime` and `file_sz`, which stay 0 where `file_size` throws.
abbrev pub stat_of : Target → ℕ × ℕ
stat_of nothing_there = (0, 0)
stat_of directory_there = (0, 0)
stat_of (file_there mtime file_sz) = (mtime, file_sz)

-- What `file_downloader` comes to: nothing to do, one of its two fatal errors, or the content with the
-- segments that are scheduled.
pub data Begun : Type 0 where
  up_to_date not_found segment_too_small : Begun
  begun : Content → List ℕ → Begun

-- `fallocate64` makes a file of zeros.
abbrev pub new_content : FileDesc → ℕ → Content
new_content desc seg_num = record {
  num_segments = seg_num;
  segments_read = 0;
  remote_size = desc.remote_size;
  local_file = replicate desc.remote_size 0;
  finished = 0;
}

-- `file_downloader::operator()`: what stands at the path then, and what it comes to.
unfoldable pub file_downloader : Bool → FileDesc → Target → ℕ → Target × Begun
unfolding segment_count
file_downloader delete_dir desc target seg_size =
    let cleared = clear delete_dir target in
    let (mtime, file_sz) = stat_of cleared in
    let counted = segment_count desc.remote_size seg_size in
    let seg_num = if counted == 0 then 1 else counted in
    (
      cleared,
      if not desc.found
          then not_found
          else if not (desc.mtime == 0) && desc.mtime == mtime && desc.raw_size == file_sz
          then up_to_date
          else if ltb max_segments counted
          then segment_too_small
          else begun (new_content desc seg_num) (range 0 seg_num),
    )

-- The bytes of a segment: `remote_size_-start_offset` in 64 bits, at most the segment size.
unfoldable pub segment_bytes : ℕ → ℕ → ℕ → ℕ
segment_bytes segment_size cur_segment remote_size =
    let size = (remote_size + 2 ^ 64 - segment_size * cur_segment) % 2 ^ 64 in
    if ltb segment_size size then segment_size else size

-- `download_segment_task`: the range it asks for, of which the server sends the bytes.
unfoldable pub download_segment : Bytes → ℕ → ℕ → Bytes
unfolding segment_bytes
download_segment remote segment_size cur_segment =
    take (segment_bytes segment_size cur_segment (length remote))
      (drop (segment_size * cur_segment) remote)

-- `write` at an offset: what stands behind the data stays, and a gap before it is filled with zeros.
unfoldable pub write_at : ℕ → Bytes → Bytes → Bytes
write_at offset [] file = file
write_at zero (d ∷ data_) [] = d ∷ write_at zero data_ []
write_at zero (d ∷ data_) (x ∷ file) = d ∷ write_at zero data_ file
write_at (suc offset) (d ∷ data_) [] = 0 ∷ write_at offset (d ∷ data_) []
write_at (suc offset) (d ∷ data_) (x ∷ file) = x ∷ write_at offset (d ∷ data_) file

-- `write_segment_task`
unfoldable pub write_segment : ℕ → ℕ → Bytes → Content → Content
unfolding write_at
write_segment segment_size cur_segment data_ c =
    let read = c.segments_read + 1 in
    record c {
      local_file = write_at (segment_size * cur_segment) data_ c.local_file;
      segments_read = read;
      finished = if read == c.num_segments then c.finished + 1 else c.finished;
    }

-- The segments in the order in which their writes come.
unfoldable pub write_all : Bytes → ℕ → List ℕ → Content → Content
unfolding download_segment write_segment
write_all remote segment_size [] c = c
write_all remote segment_size (i ∷ order) c =
    write_all remote segment_size order
      (write_segment segment_size i (download_segment remote segment_size i) c)
