-- ===== src/Upload/File/Stored.antt =====
-- es3/uploader.cpp and es3/connection.cpp: the headers that an upload sends, read back from the server.
use extremes.Base.{
  Bool-cases, ℕ, ◌^◌, ◌<◌, ◌≡◌, ◌≢◌, refl, ap, ◌∙◌, Bool, true, false, List, [], ◌∷◌, map, Bytes,
  codes, arith, ◌==◌, if◌then◌else◌, bytes_key, ◌⊎◌, inl, inr, sym, subst, All,
}
use extremes.Common.{int_to_string}
use extremes.Connection.Headers.{find_mtime, find_mtimes, find_mtime_and_size, no_desc}
use extremes.Download.{FileDesc}
use extremes.Upload.File.{LocalFile, up_to_date, file_uploader}
use extremes.Upload.File.Lines.{
  stored, header_line, mtime-line, size-line, length-line, mode-line, type-line, encoding-line,
  compressed-line, number-read, mode-read, headers-compressed, headers-plain,
}
use extremes.Upload.File.Carried.{Carries, IsLine, All-IsLine, is_other, find_mtime-other}
use extremes.Upload.File.Effects.{Effect, same-Effect, AreEffects, settled, set_by, found_kept}

module _ (fl : LocalFile) (remote_size : ℕ) (h : fl.mtime < 2 ^ 64) (k : fl.size < 2 ^ 64)
    (l : fl.mode < 2 ^ 32) (m : remote_size < 2 ^ 64) (b : Bool) where
  sets_mtime :
      (info : FileDesc)
      → find_mtime (header_line (codes "x-amz-meta-last-modified", int_to_string fl.mtime)) info
        ≡ record info { mtime = fl.mtime }
  sets_mtime info =
      mtime-line (int_to_string fl.mtime) info ∙ rw (number-read fl.mtime info.mtime h) refl

  sets_size :
      (info : FileDesc)
      → find_mtime (header_line (codes "x-amz-meta-size", int_to_string fl.size)) info
        ≡ record info { raw_size = fl.size }
  sets_size info =
      size-line (int_to_string fl.size) info ∙ rw (number-read fl.size info.raw_size k) refl

  sets_length :
      (info : FileDesc)
      → find_mtime (header_line (codes "Content-Length", int_to_string remote_size)) info
        ≡ record info { remote_size = remote_size }
  sets_length info =
      length-line (int_to_string remote_size) info
      ∙ rw (number-read remote_size info.remote_size m) refl

  sets_mode :
      (info : FileDesc)
      → find_mtime (header_line (codes "x-amz-meta-file-mode", int_to_string fl.mode)) info
        ≡ record info { mode = fl.mode }
  sets_mode info = mode-line (int_to_string fl.mode) info ∙ rw (mode-read fl.mode info.mode l) refl

  abbrev numbers : List Bytes
  numbers = map header_line (
      (codes "x-amz-meta-file-mode", int_to_string fl.mode)
      ∷ (codes "x-amz-meta-last-modified", int_to_string fl.mtime)
      ∷ (codes "x-amz-meta-size", int_to_string fl.size)
      ∷ (codes "Content-Length", int_to_string remote_size)
      ∷ [])

  numbers-AreEffects : AreEffects fl remote_size b numbers
  unfolding AreEffects
  numbers-AreEffects = (
    λ info. rw (sets_mode info) (record {
      mtime = inl refl;
      raw_size = inl refl;
      remote = inl refl;
      mode = inr refl;
      compressed = inl refl;
      found = refl;
    }),
    (
      λ info. rw (sets_mtime info) (record {
        mtime = inr refl;
        raw_size = inl refl;
        remote = inl refl;
        mode = inl refl;
        compressed = inl refl;
        found = refl;
      }),
      (
        λ info. rw (sets_size info) (record {
          mtime = inl refl;
          raw_size = inr refl;
          remote = inl refl;
          mode = inl refl;
          compressed = inl refl;
          found = refl;
        }),
        (
          λ info. rw (sets_length info) (record {
            mtime = inl refl;
            raw_size = inl refl;
            remote = inr refl;
            mode = inl refl;
            compressed = inl refl;
            found = refl;
          }),
          tt,
        ),
      ),
    ),
  )

  abbrev described : FileDesc
  described = record {
    mtime = fl.mtime;
    raw_size = fl.size;
    remote_size = remote_size;
    mode = fl.mode;
    compressed = b;
    found = false;
  }

  stored-AreEffects : (c : Bool) → c ≡ b → AreEffects fl remote_size b (stored fl c remote_size)
  unfolding AreEffects
  stored-AreEffects true e = rw (headers-compressed fl) (
    λ info. same-Effect fl remote_size b info _ (encoding-line (codes "gzip") info),
    (
      λ info. same-Effect fl remote_size b info _ (type-line fl.mime info),
      (
        λ info. rw (compressed-line true info) (record {
          mtime = inl refl;
          raw_size = inl refl;
          remote = inl refl;
          mode = inl refl;
          compressed = inr e;
          found = refl;
        }),
        numbers-AreEffects,
      ),
    ),
  )
  stored-AreEffects false e = rw (headers-plain fl) (
    λ info. same-Effect fl remote_size b info _ (type-line fl.mime info),
    (λ info. same-Effect fl remote_size b info _ (compressed-line false info), numbers-AreEffects),
  )

  -- All lines of a reply have such an effect.
  lines-AreEffects :
      (lines : List Bytes)
      → All (λ line. IsLine line (stored fl b remote_size) ⊎ (is_other line ≡ true)) lines
      → AreEffects fl remote_size b lines
  unfolding AreEffects
  lines-AreEffects [] a = tt
  lines-AreEffects (line ∷ lines) a = (
    elim a.0 [
      | inl ours ↦
          All-IsLine (λ s. (info : FileDesc) → Effect fl remote_size b info (find_mtime s info))
            line (stored fl b remote_size) ours (stored-AreEffects b refl)
      | inr other ↦ λ info.
          same-Effect fl remote_size b info (find_mtime line info)
            (find_mtime-other line info other)
    ],
    lines-AreEffects lines a.1,
  )

  numbers-stored : (c : Bool) (s : Bytes) → IsLine s numbers → IsLine s (stored fl c remote_size)
  numbers-stored true s n = rw (headers-compressed fl) (inr (inr (inr n)))
  numbers-stored false s n = rw (headers-plain fl) (inr (inr n))

  compressed_kept :
      (lines : List Bytes)
      → AreEffects fl remote_size b lines
      → All (λ s. IsLine s lines) (stored fl b remote_size)
      → (find_mtimes lines no_desc).compressed ≡ b
  compressed_kept lines a sent = elim (Bool-cases b) [
    | inl on ↦
        let there : IsLine (header_line (codes "x-amz-meta-compressed", codes "true"))
            (stored fl true remote_size) =
          rw (headers-compressed fl) (inr (inr (inl refl))) in
        set_by fl remote_size b (λ d. d.compressed) b (λ info next e. e.compressed) _ lines no_desc
          a
          (All-IsLine (λ s. IsLine s lines) _ (stored fl b remote_size)
            (subst
              (λ c.
                IsLine (header_line (codes "x-amz-meta-compressed", codes "true"))
                  (stored fl c remote_size))
              (sym on) there)
            sent)
          (λ old. ap (λ d. d.compressed) (compressed-line true old) ∙ sym on)
    | inr off ↦
        settled fl remote_size b (λ d. d.compressed) b (λ info next e. e.compressed) lines no_desc a
          (sym off)
  ]

  carried-find_mtimes :
      (lines : List Bytes)
      → Carries (stored fl b remote_size) lines
      → find_mtimes lines no_desc ≡ described
  carried-find_mtimes lines (all, sent) =
      let a = lines-AreEffects lines all in
      let there : (s : Bytes) → IsLine s numbers → IsLine s lines = λ s n.
        All-IsLine (λ s. IsLine s lines) s (stored fl b remote_size) (numbers-stored b s n) sent in
      let mode =
        set_by fl remote_size b (λ d. d.mode) fl.mode (λ info next e. e.mode) _ lines no_desc a
          (there _ (inl refl)) (λ old. ap (λ d. d.mode) (sets_mode old)) in
      let mtime =
        set_by fl remote_size b (λ d. d.mtime) fl.mtime (λ info next e. e.mtime) _ lines no_desc a
          (there _ (inr (inl refl))) (λ old. ap (λ d. d.mtime) (sets_mtime old)) in
      let size =
        set_by fl remote_size b (λ d. d.raw_size) fl.size (λ info next e. e.raw_size) _ lines
          no_desc a (there _ (inr (inr (inl refl))))
          (λ old. ap (λ d. d.raw_size) (sets_size old)) in
      let remote =
        set_by fl remote_size b (λ d. d.remote_size) remote_size (λ info next e. e.remote) _ lines
          no_desc a (there _ (inr (inr (inr (inl refl)))))
          (λ old. ap (λ d. d.remote_size) (sets_length old)) in
      let compressed = compressed_kept lines a sent in
      let found = found_kept fl remote_size b lines no_desc a in
      λ i. record {
        mtime = mtime i;
        raw_size = size i;
        remote_size = remote i;
        mode = mode i;
        compressed = compressed i;
        found = found i;
      }

-- A reply to a HEAD request that carries the headers which an upload sent, and the length of what is
-- stored, in any order and among any other lines that have no colon or none of the five names before
-- their first one, is read as the time, the permissions and the compression of the uploaded file and that
-- length, and as its size, or the length again where the size is 0.
pub find_mtime_and_size-stored :
    (fl : LocalFile) (do_compress : Bool) (remote_size : ℕ) (lines : List Bytes)
    → fl.mtime < 2 ^ 64
    → fl.size < 2 ^ 64
    → fl.mode < 2 ^ 32
    → remote_size < 2 ^ 64
    → Carries (stored fl do_compress remote_size) lines
    → find_mtime_and_size 200 lines ≡ record {
      mtime = fl.mtime;
      raw_size = if fl.size == 0 then remote_size else fl.size;
      remote_size = remote_size;
      mode = fl.mode;
      compressed = do_compress;
      found = true;
    }
unfolding find_mtime_and_size
find_mtime_and_size-stored fl do_compress remote_size lines h k l m carries =
    rw (carried-find_mtimes fl remote_size h k l m do_compress lines carries) refl

-- A file with a time other than 0 that was uploaded, and is stored with no bytes if it has none, is,
-- after such a reply, not uploaded again, compressed or not and whatever the option says now.
pub file_uploader-up_to_date :
    (fl : LocalFile) (do_compress do_compression : Bool) (remote_size : ℕ) (lines : List Bytes)
    → fl.mtime < 2 ^ 64
    → fl.size < 2 ^ 64
    → fl.mode < 2 ^ 32
    → remote_size < 2 ^ 64
    → fl.mtime ≢ 0
    → (fl.size ≡ 0 → remote_size ≡ 0)
    → Carries (stored fl do_compress remote_size) lines
    → file_uploader (find_mtime_and_size 200 lines) fl do_compression ≡ up_to_date
unfolding file_uploader
file_uploader-up_to_date fl do_compress do_compression remote_size lines h k l m timed filled
      carries =
    rw (find_mtime_and_size-stored fl do_compress remote_size lines h k l m carries)
      (ground (arith, filled))
