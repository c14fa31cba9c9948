-- ===== src/Connection/Transfers/Buffers.antt =====
-- es3/connection.cpp: the buffers behind an upload and a download, however curl cuts the bytes.
use extremes.Base.{ℕ, ◌<◌, ◌≡◌, List, [], ◌++◌, Bytes, codes, length}
use extremes.Common.{int_to_string}
use extremes.Connection.Requests.{Environment, Request, replied, Outcome}
use extremes.Connection.Callbacks.{WriteData, receive}
use extremes.Connection.Transfers.{keep_segment}
use extremes.Errors.{Exception, es3_exception, err_warn}
use extremes.Paths.{print_path}
use extremes.Sync.Tree.{S3Path}

abbrev new_write : ℕ → WriteData
new_write size = record { total_size = size; written = [] }

module _ (env : Environment) (path : S3Path) (offset size : ℕ) (data_ : Bytes) where
  short_error : Exception
  short_error = es3_exception (record {
    code = err_warn;
    desc =
        codes "Size of a segment at offset "
        ++ int_to_string offset
        ++ codes " of "
        ++ print_path path
        ++ codes " is incorrect.";
  })

  received : (Bytes → List Bytes) → ℕ × List Bytes × Bytes → Outcome Bytes
  received cut reply =
      keep_segment env path offset size reply.0 (receive (cut reply.2) (new_write size))

  abbrev Fetched : Request → Type 0
  Fetched request =
      (length data_ ≡ size)
      × (code : ℕ) × (lines : List Bytes) × (env.perform request ≡ replied code lines data_)
      × (code < 400)
