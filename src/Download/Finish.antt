-- ===== src/Download/Finish.antt =====
-- es3/downloader.cpp, `write_segment_task`: what the last segment of a download does with the file.
use extremes.Base.{suc, [], ◌∷◌, ◌++◌, ◌==◌, ℕ, ◌≡◌, Bool, true, false, List, Bytes, if◌then◌else◌}
use extremes.Compress.Streams.{Ending, reached, ◌>>=◌, file_decompressor}
use extremes.Compress.Streams.Members.{Members}
use extremes.Compress.Zlib.{Zlib}
use extremes.Errors.{Result, ok, throw, std_exception, libc_die, ◌>>◌}
use extremes.Download.{Content, write_segment, download_segment, FileDesc}

-- What stands at `target_file_`, with its time and its permissions.
pub record Placed : Type 0 where
  pub content : Bytes
  pub mtime : ℕ
  pub mode : ℕ

-- A call of the C library: a failing one sets `errno`, which is one more than the number here, and has
-- its text printed.
pub data Call : Type 0 where
  succeeds : Call
  fails : ℕ → Bytes → Call

-- `last_write_time`, which throws where it does not succeed, `chmod` and `rename`.
pub record Calls : Type 0 where
  pub last_write_time : Bool
  pub chmod : Call
  pub rename : Call

abbrev pub die2 : Call → Result (Unit {0})
die2 succeeds = libc_die false 0 []
die2 (fails errno printed) = libc_die true (suc errno) printed

-- The end of both branches, here and in `file_decompressor`: a file with this content is given its
-- time and its permissions and put in the place of the target.
unfoldable pub place : Calls → FileDesc → Bytes → Result Placed
unfolding libc_die
place calls desc content =
    (if calls.last_write_time then ok tt else throw std_exception)
    >> (die2 calls.chmod
        >> (die2 calls.rename
            >> ok (record { content = content; mtime = desc.mtime; mode = desc.mode })))

-- The block behind `segments_read_==num_segments_`, with the `file_decompressor` that it schedules.
unfoldable pub finish_download :
    Zlib → (ℕ → ℕ) → ℕ → Calls → FileDesc → Bytes → Ending (Result Placed)
unfolding file_decompressor place
finish_download zl reads turns calls desc local_file =
    (if desc.compressed then file_decompressor zl reads turns local_file else reached local_file)
    >>= λ content. reached (place calls desc content)

-- `write_segment_task::operator()`, with what the ends of a download came to so far.
unfoldable pub finish_segment :
    (Bytes → Ending (Result Placed))
    → ℕ
    → ℕ
    → Bytes
    → Content × List (Ending (Result Placed))
    → Content × List (Ending (Result Placed))
unfolding write_segment
finish_segment finish segment_size cur_segment data_ (c, ends) =
    let next = write_segment segment_size cur_segment data_ c in
    (
      next,
      if next.segments_read == c.num_segments then ends ++ finish next.local_file ∷ [] else ends,
    )

-- The tasks of all segments, in the order in which they come.
unfoldable pub finish_segments :
    (Bytes → Ending (Result Placed))
    → Bytes
    → ℕ
    → List ℕ
    → Content × List (Ending (Result Placed))
    → Content × List (Ending (Result Placed))
unfolding download_segment finish_segment
finish_segments finish remote segment_size [] s = s
finish_segments finish remote segment_size (i ∷ order) s =
    finish_segments finish remote segment_size order
      (finish_segment finish segment_size i (download_segment remote segment_size i) s)

-- The remote bytes stand for the file `raw`: gzip members of it, or the file itself.
abbrev pub StandsFor : (Bytes → Bytes → Type 0) → Bool → Bytes → Bytes → Type 0
StandsFor Member true remote raw = Members Member remote raw
StandsFor Member false remote raw = remote ≡ raw
