-- ===== src/Download/Whole.antt =====
-- A whole download of es3/downloader.cpp: the segments' writes in any order.
use extremes.Base.{
  ℕ, suc, ◌+◌, ◌-◌, ◌*◌, ◌/◌, ◌^◌, ◌≤◌, ◌<◌, ◌≡◌, ◌≢◌, ◌⊎◌, inl, inr, refl, ap₂, ◌∙◌, subst, true,
  false, not, ◌==◌, Bool, ◌&&◌, List, [], ◌∷◌, some, Bytes, arith, ltb, leb, drop, length,
  get_elem?, min, Bool-cases, All, length-take, length-drop, length-replicate,
}
use native.Mathlib.Nat.{div-add-mod, mod-lt, div-lt_iff_lt-mul}
use extremes.Segments.{parts, parts-within, parts-pos, parts-enough, range, segment_count}
use extremes.Download.{
  Content, FileDesc, Target, clear, stat_of, begun, new_content, file_downloader, max_segments,
  write_at, segment_bytes, download_segment, write_segment, write_all,
}
use extremes.Download.Writing.{
  length-write_at, get_elem?-write_at_outside, get_elem?-write_at_inside, get_elem?-take,
  get_elem?-drop,
}

abbrev pub IsIn : ℕ → List ℕ → Type 0
IsIn i [] = ⊥
IsIn i (x ∷ xs) = (i ≡ x) ⊎ IsIn i xs

same_bytes :
    (xs ys : Bytes)
    → length xs ≡ length ys
    → ((j : ℕ) → j < length xs → get_elem? xs j ≡ get_elem? ys j)
    → xs ≡ ys
same_bytes [] [] e h = refl
same_bytes [] (y ∷ ys) e h = ground (arith, e)
same_bytes (x ∷ xs) [] e h = ground (arith, e)
same_bytes (x ∷ xs) (y ∷ ys) e h =
    let first : some x ≡ some y = h 0 (omega arith) in
    let head : x ≡ y = cc in
    ap₂ ◌∷◌ head (same_bytes xs ys (omega (arith, e)) (λ j lt. h (suc j) (omega (arith, lt))))

module _ (remote : Bytes) (k : ℕ) (small : length remote < 2 ^ 64) where
  segment_bytes_lem :
      (i : ℕ)
      → k * i ≤ length remote
      → segment_bytes k i (length remote) ≡ min k (length remote - k * i)
  unfolding segment_bytes
  segment_bytes_lem i h = ground (arith, small)

  length-download_segment :
      (i : ℕ)
      → k * i ≤ length remote
      → length (download_segment remote k i) ≡ min k (length remote - k * i)
  unfolding download_segment
  length-download_segment i h = omega (
    arith,
    length-take (segment_bytes k i (length remote)) (drop (k * i) remote),
    length-drop (k * i) remote,
    segment_bytes_lem i h,
  )

  abbrev written : ℕ → Bytes → Bytes
  written i file = write_at (k * i) (download_segment remote k i) file

  length-written :
      (i : ℕ) (file : Bytes)
      → k * i ≤ length remote
      → length file ≡ length remote
      → length (written i file) ≡ length remote
  length-written i file h e =
      length-write_at (k * i) (download_segment remote k i) file
        (omega (arith, e, h, length-download_segment i h))
      ∙ e

  right-written :
      (i j : ℕ) (file : Bytes)
      → k * i ≤ length remote
      → length file ≡ length remote
      → k * i ≤ j
      → j < k * i + k
      → j < length remote
      → get_elem? (written i file) j ≡ get_elem? remote j
  unfolding download_segment
  right-written i j file h e low high lt =
      let d = download_segment remote k i in
      let m = j - k * i in
      let place : k * i + m ≡ j = omega arith in
      let size = length-download_segment i h in
      let within : m < length d = omega arith in
      subst (λ p. get_elem? (written i file) p ≡ get_elem? remote p) place
        (get_elem?-write_at_inside (k * i) d file m (omega arith) within
          ∙ get_elem?-take (segment_bytes k i (length remote)) (drop (k * i) remote) m
              (omega (arith, segment_bytes_lem i h))
          ∙ get_elem?-drop (k * i) remote m)

  keeps-written :
      (i j : ℕ) (file : Bytes)
      → k * i ≤ length remote
      → length file ≡ length remote
      → j < length remote
      → get_elem? file j ≡ get_elem? remote j
      → get_elem? (written i file) j ≡ get_elem? remote j
  keeps-written i j file h e lt same =
      let d = download_segment remote k i in
      elim (Bool-cases (leb (k * i) j && ltb j (k * i + length d))) [
        | inl inside ↦
            right-written i j file h e (ground arith) (ground (arith, length-download_segment i h))
              lt
        | inr outside ↦
            get_elem?-write_at_outside (k * i) d file j
              (omega (arith, e, h, length-download_segment i h)) outside
            ∙ same
      ]

  module _ (pos : 0 < k) where
    -- The numbers of segments of this file.
    abbrev IsNumber : ℕ → Type 0
    IsNumber i = i < parts (length remote) k

    write_all-length :
        (order : List ℕ) (c : Content)
        → All IsNumber order
        → length c.local_file ≡ length remote
        → length (write_all remote k order c).local_file ≡ length remote
    unfolding write_all write_segment
    write_all-length [] c n e = e
    write_all-length (i ∷ order) c n e =
        write_all-length order _ n.1
          (length-written i c.local_file (parts-within k (length remote) i pos n.0) e)

    write_all-keeps :
        (order : List ℕ) (c : Content) (j : ℕ)
        → All IsNumber order
        → length c.local_file ≡ length remote
        → j < length remote
        → get_elem? c.local_file j ≡ get_elem? remote j
        → get_elem? (write_all remote k order c).local_file j ≡ get_elem? remote j
    unfolding write_all write_segment
    write_all-keeps [] c j n e lt same = same
    write_all-keeps (i ∷ order) c j n e lt same =
        let start = parts-within k (length remote) i pos n.0 in
        write_all-keeps order _ j n.1 (length-written i c.local_file start e) lt
          (keeps-written i j c.local_file start e lt same)

    write_all-writes :
        (order : List ℕ) (c : Content) (i j : ℕ)
        → All IsNumber order
        → length c.local_file ≡ length remote
        → IsIn i order
        → k * i ≤ j
        → j < k * i + k
        → j < length remote
        → get_elem? (write_all remote k order c).local_file j ≡ get_elem? remote j
    unfolding write_all write_segment
    write_all-writes [] c i j n e there low high lt = absurd there
    write_all-writes (x ∷ order) c i j n e there low high lt =
        let start = parts-within k (length remote) x pos n.0 in
        elim there [
          | inl same ↦ write_all-keeps order _ j n.1 (length-written x c.local_file start e) lt (
              right-written x j c.local_file start e (subst (λ y. k * y ≤ j) same low)
                (subst (λ y. j < k * y + k) same high) lt)
          | inr later ↦
              write_all-writes order _ i j n.1 (length-written x c.local_file start e) later low
                high lt
        ]

    write_all-counts :
        (order : List ℕ) (c : Content)
        → c.segments_read < c.num_segments
        → c.segments_read + length order ≡ c.num_segments
        → c.finished ≡ 0
        → ((write_all remote k order c).segments_read ≡ c.num_segments)
          × ((write_all remote k order c).finished ≡ 1)
    unfolding write_all write_segment
    write_all-counts [] c lt all never = ground (arith, lt, all)
    write_all-counts (x ∷ []) c lt all never = (omega (arith, all), ground (arith, all, never))
    write_all-counts (x ∷ y ∷ order) c lt all never =
        write_all-counts (y ∷ order) _ (omega (arith, all)) (omega (arith, all))
          (ground (arith, all, never))

    segment_of :
        (j : ℕ)
        → j < length remote
        → (i : ℕ) × (i < parts (length remote) k) × (k * i ≤ j) × (j < k * i + k)
    segment_of j lt =
        let whole = div-add-mod j k in
        let below =
          (div-lt_iff_lt-mul {k = k} {x = j} {y = parts (length remote) k} pos).1
            (omega (arith, lt, parts-enough k (length remote) pos)) in
        (j / k, below, omega (arith, whole), omega (arith, whole, mod-lt j pos))

-- The remote file has no time, or another time or another size than what stands at the path.
abbrev pub IsStale : FileDesc → ℕ × ℕ → Type 0
IsStale desc (mtime, file_sz) =
    (desc.mtime ≡ 0) ⊎ ((desc.mtime ≢ mtime) ⊎ (desc.raw_size ≢ file_sz))

stale :
    (desc : FileDesc) (mtime file_sz : ℕ)
    → IsStale desc (mtime, file_sz)
    → (not (desc.mtime == 0) && desc.mtime == mtime && desc.raw_size == file_sz) ≡ false
stale desc mtime file_sz (inl e) = ground (arith, e)
stale desc mtime file_sz (inr (inl e)) = ground (arith, e)
stale desc mtime file_sz (inr (inr e)) = ground (arith, e)

-- With a positive segment size and a remote file of less than 2^64 bytes in at most 9999 segments which
-- has no time, or another time or size than what stands at the path once `delete_dir_` has been obeyed,
-- a download begins with one task for each segment; and in whatever order these
-- write, with each segment written in as many writes as there are segments, the local file ends as
-- the remote one, all segments are counted, and the block that ends the download runs exactly once.
pub write_all-remote :
    (remote : Bytes) (desc : FileDesc) (delete_dir : Bool) (target : Target) (k : ℕ)
    (order : List ℕ)
    → 0 < k
    → length remote < 2 ^ 64
    → desc.found ≡ true
    → IsStale desc (stat_of (clear delete_dir target))
    → desc.remote_size ≡ length remote
    → segment_count (length remote) k ≤ max_segments
    → All (λ i. i < parts (length remote) k) order
    → ((i : ℕ) → i < parts (length remote) k → IsIn i order)
    → length order ≡ parts (length remote) k
    → (file_downloader delete_dir desc target k ≡ (
      clear delete_dir target,
      begun (new_content desc (parts (length remote) k)) (range 0 (parts (length remote) k)),
    ))
      × ((write_all remote k order (new_content desc (parts (length remote) k))).local_file
          ≡ remote)
      × ((write_all remote k order (new_content desc (parts (length remote) k))).segments_read
          ≡ parts (length remote) k)
      × ((write_all remote k order (new_content desc (parts (length remote) k))).finished ≡ 1)
unfolding file_downloader
write_all-remote remote desc delete_dir target k order pos small found newer size fits numbers every
      count =
    let c = new_content desc (parts (length remote) k) in
    let e : length c.local_file ≡ length remote = length-replicate desc.remote_size 0 ∙ size in
    let end = write_all-length remote k small pos order c numbers e in
    let bytes : (j : ℕ)
        → j < length remote
        → get_elem? (write_all remote k order c).local_file j ≡ get_elem? remote j =
      λ j lt.
        let (i, number, low, high) = segment_of remote k small pos j lt in
        write_all-writes remote k small pos order c i j numbers e (every i number) low high lt in
    let counts =
      write_all-counts remote k small pos order c (parts-pos (length remote) k)
        (omega (arith, count)) refl in
    let (mtime, file_sz) = stat_of (clear delete_dir target) in
    let other = stale desc mtime file_sz newer in
    (
      rw (size, found, other) (ground arith),
      same_bytes _ remote end (λ j lt. bytes j (omega (arith, lt, end))),
      counts.0,
      counts.1,
    )
