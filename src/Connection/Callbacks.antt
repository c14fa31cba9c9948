-- ===== src/Connection/Callbacks.antt =====
-- es3/connection.cpp: `buf_data` and `write_data`, the buffers that curl reads a request from and writes
-- a reply to.
pub mod Reading
use extremes.Base.{
  ℕ, zero, suc, ◌+◌, ◌-◌, ◌^◌, ◌%◌, min, Bool, true, false, not, ◌&&◌, ◌||◌, List, [], ◌∷◌, ◌++◌,
  Option, none, some, Bytes, codes, ltb, ◌==◌, if◌then◌else◌, bytes_key, ◌=k◌, take, drop, length,
}
use Prim.Native.Nat.{Ordering}
use extremes.Common.{HeaderMap, is_empty, int_to_string, strcasecmp, tobinhex, assign_header}
use extremes.Connection.Headers.{find_etag}
use extremes.Connection.Requests.{
  Environment, Request, Outcome, done, failed, crashed, ◌>>=◌, lift, prepare, checked,
  check_for_errors, read_fully,
}
use extremes.Connection.Xml.{Nodes, no_nodes, sibling, named, first_child, first_text, Node}
use extremes.Errors.{err, err_warn}
use extremes.Paths.{print_path}
use extremes.Sync.Tree.{S3Path}

-- `buf_data`: what is sent, how much of it is gone, and the bytes that `MD5_Update` was given.
pub record BufData : Type 0 where
  pub buf : Bytes
  pub written : ℕ
  pub hashed : Bytes

-- `buf_data::simple_read`, and the bytes that it copies.
unfoldable pub simple_read : BufData → ℕ → BufData × Bytes
simple_read b size =
    let tocopy = min (length b.buf - b.written) size in
    let copied = take tocopy (drop b.written b.buf) in
    if tocopy == 0
    then (b, [])
    else (record b { written = b.written + tocopy; hashed = b.hashed ++ copied }, copied)

-- Calls of `read_func` for these sizes, with all bytes that they copy.
unfoldable pub feed : BufData → List ℕ → BufData × Bytes
unfolding simple_read
feed b [] = (b, [])
feed b (size ∷ sizes) =
    let (next, copied) = simple_read b size in
    let (last, rest) = feed next sizes in (last, copied ++ rest)

-- `write_data`: the size of the buffer and what has been put into it so far.
pub record WriteData : Type 0 where
  pub total_size : ℕ
  pub written : Bytes

-- `write_data::simple_write`, with the number that it returns.
unfoldable pub simple_write : WriteData → Bytes → WriteData × ℕ
simple_write w chunk =
    let tocopy = min (w.total_size - length w.written) (length chunk) in
    if tocopy == 0 then (w, 0) else (record w { written = w.written ++ take tocopy chunk }, tocopy)

-- Chunks of a reply given to `simple_write`, as long as it takes each in full, as curl does; what
-- is in the buffer then, and whether a chunk was cut off, which is an error for curl.
unfoldable pub receive : List Bytes → WriteData → WriteData × Bool
unfolding simple_write
receive [] w = (w, true)
receive (chunk ∷ chunks) w =
    let (next, taken) = simple_write w chunk in
    if taken == length chunk then receive chunks next else (next, false)
