-- ===== src/Compress/Zlib.antt =====
-- What es3/compressor.cpp calls of zlib, which is not part of the repository, and what zlib's manual
-- says of it.
use extremes.Base.{ℕ, ◌≤◌, ◌<◌, ◌≡◌, ◌≢◌, ◌⊎◌, [], ◌++◌, Bytes, length}

-- The codes that the source tells apart; `z_error` is any negative one.
pub data Code : Type 0 where
  z_ok z_stream_end z_need_dict z_error : Code

pub data Flush : Type 0 where
  no_flush finish : Flush

-- A call on a stream: the stream afterwards, the `avail_in` bytes that are left, the bytes that were
-- put at `next_out`, and the code.
pub record Called (Z : Type 0) : Type 0 where
  pub next : Z
  pub rest : Bytes
  pub output : Bytes
  pub code : Code

-- A stream, what is at `next_in`, and `avail_out`.
pub record Zlib : Type 1 where
  pub Deflater : Type 0
  pub Inflater : Type 0
  pub deflate_init : Deflater
  pub deflate : Flush → Deflater → Bytes → ℕ → Called Deflater
  pub inflate_init : Inflater
  pub inflate : Inflater → Bytes → ℕ → Called Inflater

module _ (zl : Zlib) where
  open zl use {Deflater, Inflater, deflate_init, deflate, inflate_init, inflate}

  -- `deflate`: a stream has taken `raw` and put out `out`; `Member packed raw` says that `packed` is
  -- the gzip format of `raw`. A call goes on until the input is used up or the output is full, and
  -- no more is put out than `deflateBound` says.
  pub record Deflates (Member : Bytes → Bytes → Type 0) : Type 1 where
    pub Deflating : Deflater → Bytes → Bytes → Type 0
    pub deflate_bound : ℕ → ℕ
    pub begun : Deflating deflate_init [] []
    pub within :
        (z : Deflater) (raw out : Bytes)
        → Deflating z raw out
        → length out ≤ deflate_bound (length raw)
    pub bound_mono : (m n : ℕ) → m ≤ n → deflate_bound m ≤ deflate_bound n
    pub deflated :
        (z : Deflater) (raw out input : Bytes) (room : ℕ)
        → Deflating z raw out
        → input ≢ []
        → 0 < room
        → ((deflate no_flush z input room).code ≡ z_ok)
          × ((eaten : Bytes) × (input ≡ eaten ++ (deflate no_flush z input room).rest)
              × Deflating
                  (deflate no_flush z input room).next
                  (raw ++ eaten)
                  (out ++ (deflate no_flush z input room).output))
          × (((deflate no_flush z input room).rest ≡ [])
              ⊎ (length (deflate no_flush z input room).output ≡ room))
    pub ended :
        (z : Deflater) (raw out : Bytes) (room : ℕ)
        → Deflating z raw out
        → (deflate finish z [] room).code ≡ z_stream_end
        → Member (out ++ (deflate finish z [] room).output) raw

  -- `inflate`: a stream has taken `eaten`, which is not yet the whole of a member, and put out `out`.
  -- A call ends at the end of the member, or goes on until the input is used up or the output is
  -- full; the end of a member, its checksum, is taken only when everything is put out.
  pub record Inflates (Member : Bytes → Bytes → Type 0) : Type 1 where
    pub Inflating : Inflater → Bytes → Bytes → Type 0
    pub not_empty : (packed raw : Bytes) → Member packed raw → packed ≢ []
    pub begun : Inflating inflate_init [] []
    pub inflated :
        (z : Inflater) (eaten out more todo input later after : Bytes) (room : ℕ)
        → Inflating z eaten out
        → Member (eaten ++ more) (out ++ todo)
        → more ≢ []
        → input ≢ []
        → 0 < room
        → input ++ later ≡ more ++ after
        → (((inflate z input room).code ≡ z_stream_end)
            × (input ≡ more ++ (inflate z input room).rest)
            × ((inflate z input room).output ≡ todo))
          ⊎ (((inflate z input room).code ≡ z_ok)
              × ((taken : Bytes) × (left : Bytes) × (hidden : Bytes) × (input
                    ≡ taken ++ (inflate z input room).rest)
                  × (more ≡ taken ++ left)
                  × (left ≢ [])
                  × (todo ≡ (inflate z input room).output ++ hidden)
                  × Inflating
                      (inflate z input room).next
                      (eaten ++ taken)
                      (out ++ (inflate z input room).output))
              × (((inflate z input room).rest ≡ [])
                  ⊎ (length (inflate z input room).output ≡ room)))
