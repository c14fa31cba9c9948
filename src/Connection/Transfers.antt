-- ===== src/Connection/Transfers.antt =====
-- es3/connection.cpp: the bytes of a file on their way to the server and back, and the uploads in parts.
pub mod Buffers
use extremes.Base.{
  ℕ, zero, suc, ◌+◌, ◌-◌, ◌^◌, ◌%◌, min, Bool, true, false, not, ◌&&◌, ◌||◌, List, [], ◌∷◌, ◌++◌,
  Option, none, some, Bytes, codes, ltb, ◌==◌, if◌then◌else◌, bytes_key, ◌=k◌, take, drop, length,
}
use Prim.Native.Nat.{Ordering}
use extremes.Common.{HeaderMap, is_empty, int_to_string, strcasecmp, tobinhex, assign_header}
use extremes.Connection.Headers.{find_etag}
use extremes.Connection.Requests.{
  Environment, Request, Outcome, done, failed, crashed, ◌>>=◌, lift, prepare, checked,
  check_for_errors, read_fully,
}
use extremes.Connection.Xml.{Nodes, no_nodes, sibling, named, first_child, first_text, Node}
use extremes.Errors.{err, err_warn}
use extremes.Paths.{print_path}
use extremes.Sync.Tree.{S3Path}
use extremes.Connection.Callbacks.{BufData, simple_read, feed, WriteData, simple_write, receive}

unfoldable pub find_etags : List Bytes → Bytes → Bytes
unfolding find_etag
find_etags [] etag = etag
find_etags (line ∷ lines) etag = find_etags lines (find_etag line etag)

module _ (env : Environment) where
  -- `check_part`
  unfoldable pub check_part : Bytes → ℕ → Outcome Bool
  unfolding named first_child first_text int_to_string
  check_part ans part_num = elim (env.parse_xml ans) [
    | none ↦ done false
    | some doc ↦ elim (first_child (codes "Part") (named (codes "ListPartsResult") doc)) [
      | no_nodes ↦ done false
      | sibling part others ↦ elim (first_child (codes "PartNumber") (sibling part others)) [
        | no_nodes ↦ done false
        | sibling n ns ↦ elim (first_text (sibling n ns)) [
          | none ↦ crashed
          | some text ↦ done (text =k int_to_string part_num)
        ]
      ]
    ]
  ]

  -- A suffix of the path's text.
  abbrev with_suffix : S3Path → Bytes → S3Path
  with_suffix path suffix = record path { path = path.path ++ suffix }

  -- The end of `upload_data`: a part is looked up before its etag counts.
  unfoldable pub confirm_part : S3Path → Bytes → ℕ → Bytes → Outcome Bytes
  unfolding read_fully check_part
  confirm_part path upload_id part_num etag =
      if is_empty upload_id
      then done etag
      else (read_fully env (codes "GET") (with_suffix path (codes "?uploadId=" ++ upload_id))
            (codes "&part-number-marker=" ++ int_to_string (part_num - 1) ++ codes "&max-parts=1")
            []
          >>= λ ans. check_part ans part_num >>= λ there.
              if there
              then done etag
              else (lift false (
                    err err_warn (
                      codes "Failed to get information about part "
                      ++ int_to_string part_num
                      ++ codes " for upload "
                      ++ print_path path))
                  >>= λ _. done etag))

  -- `upload_data`; `md5` is the digest, and a wrong etag aborts.
  unfoldable pub upload_data :
      (Bytes → Bytes) → S3Path → Bytes → ℕ → Bytes → HeaderMap → Outcome Bytes
  unfolding prepare checked check_for_errors find_etags confirm_part strcasecmp tobinhex
  upload_data md5 path upload_id part_num data_ opts =
      let query =
        codes "?partNumber=" ++ int_to_string part_num ++ codes "&uploadId=" ++ upload_id in
      let fin_path = if is_empty upload_id then path else with_suffix path query in
      if not (is_empty upload_id) && part_num == 0
      then crashed
      else (prepare env (codes "PUT") fin_path opts >>= λ request.
          checked env (env.perform (record request { body = some data_ })) >>= λ reply.
          let (code, lines, result) = reply in
          check_for_errors env code result >>= λ _.
          let etag = find_etags lines [] in
          let same : Bool =
            elim (strcasecmp etag (codes "\"" ++ tobinhex (md5 data_) ++ codes "\"")) [
              | Ordering.eq ↦ true
              | _ ↦ false
            ] in
          if not (is_empty etag) && not same
          then crashed
          else confirm_part path upload_id part_num etag)

  -- `upHandle.FirstChild("UploadId")` of one `Upload` after the other.
  unfoldable pub find_upload : Bytes → Nodes → Outcome Bool
  unfolding first_child first_text
  find_upload upload_id no_nodes = done false
  find_upload upload_id (sibling n ns) =
      elim (first_text (first_child (codes "UploadId") (sibling n no_nodes))) [
        | none ↦ crashed
        | some val ↦ elim (val =k upload_id) [ true ↦ done true | false ↦ find_upload upload_id ns ]
      ]

  -- The second request of `initiate_multipart`.
  unfoldable pub confirm_upload : S3Path → Bytes → Outcome Bytes
  unfolding read_fully find_upload named
  confirm_upload path upload_id =
      read_fully env (codes "GET") (record path { path = codes "/?uploads" })
        (codes "&prefix=" ++ drop 1 path.path) []
      >>= λ cur_uploads. elim (env.parse_xml cur_uploads) [
        | none ↦
            lift false (err err_warn (codes "Failed to initiate multipart to " ++ print_path path))
            >>= λ _. crashed
        | some doc ↦
            elim (first_child (codes "Upload") (named (codes "ListMultipartUploadsResult") doc)) [
              | no_nodes ↦
                  lift false (err err_warn (codes "Incorrect document format - no upload ID"))
                  >>= λ _. crashed
              | sibling n ns ↦ find_upload upload_id (sibling n ns) >>= λ found.
                  if found
                  then done upload_id
                  else (lift false
                        (err err_warn (codes "Can't find an active upload with id=" ++ upload_id))
                      >>= λ _. crashed)
            ]
      ]

  -- `initiate_multipart`
  unfoldable pub initiate_multipart : S3Path → HeaderMap → Outcome Bytes
  unfolding read_fully confirm_upload first_child first_text named
  initiate_multipart path opts =
      read_fully env (codes "POST") (with_suffix path (codes "?uploads")) [] opts >>= λ list.
      elim (env.parse_xml list) [
        | none ↦
            lift false (err err_warn (codes "Failed to initiate multipart to " ++ print_path path))
            >>= λ _. crashed
        | some doc ↦
            elim (first_text (
              first_child (codes "UploadId") (named (codes "InitiateMultipartUploadResult") doc))) [
                | none ↦
                    lift false (err err_warn (codes "Incorrect document format - no upload ID"))
                    >>= λ _. crashed
                | some upload_id ↦ confirm_upload path upload_id
              ]
      ]

  -- The parts in the document of `complete_multipart`, from number `f` on.
  unfoldable pub part_lines : ℕ → List Bytes → Bytes
  unfolding int_to_string
  part_lines f [] = []
  part_lines f (etag ∷ etags) =
      codes "<Part>\n  <PartNumber>"
      ++ int_to_string (f + 1)
      ++ codes "</PartNumber>\n  <ETag>"
      ++ etag
      ++ codes "</ETag>\n</Part>\n"
      ++ part_lines (suc f) etags

  -- `complete_multipart`
  unfoldable pub complete_multipart : S3Path → Bytes → List Bytes → Outcome Bytes
  unfolding prepare checked check_for_errors part_lines
  complete_multipart path upload_id etags =
      let data_ =
        codes "<CompleteMultipartUpload>"
        ++ part_lines 0 etags
        ++ codes "</CompleteMultipartUpload>" in
      prepare env (codes "POST") (with_suffix path (codes "?uploadId=" ++ upload_id)) []
      >>= λ request. checked env (env.perform (record request { body = some data_ })) >>= λ reply.
          let (code, lines, body) = reply in check_for_errors env code body >>= λ _. done body

  -- The last check of `download_data`.
  unfoldable pub keep_whole : S3Path → ℕ → ℕ → Bytes → Outcome Bytes
  unfolding int_to_string
  keep_whole path offset size written =
      if length written == size
      then done written
      else (lift false (
            err err_warn (
              codes "Size of a segment at offset "
              ++ int_to_string offset
              ++ codes " of "
              ++ print_path path
              ++ codes " is incorrect."))
          >>= λ _. crashed)

  -- What `download_data` makes of a reply with this code, once the buffer has been written, up to a
  -- chunk that was cut off (`false`) or in full. The text of curl's own error is left out.
  unfoldable pub keep_segment : S3Path → ℕ → ℕ → ℕ → WriteData × Bool → Outcome Bytes
  unfolding check_for_errors keep_whole
  keep_segment path offset size code (wd, true) =
      check_for_errors env code (take (min (length wd.written) 1024) wd.written) >>= λ _.
      keep_whole path offset size wd.written
  keep_segment path offset size code (wd, false) =
      lift false (err err_warn (codes "curl error: ")) >>= λ _. crashed

  -- The bytes from `offset` on, `size` of them.
  unfoldable pub range_of : ℕ → ℕ → Bytes
  unfolding int_to_string
  range_of offset size =
      int_to_string offset ++ codes "-" ++ int_to_string ((offset + size + (2 ^ 64 - 1)) % 2 ^ 64)

  -- `download_data`; `cut` is how curl cuts the bytes of the reply.
  unfoldable pub download_data : (Bytes → List Bytes) → S3Path → ℕ → ℕ → HeaderMap → Outcome Bytes
  unfolding prepare checked receive keep_segment range_of
  download_data cut path offset size opts = prepare env (codes "GET") path opts >>= λ request.
      checked env (env.perform (record request { range = some (range_of offset size) }))
      >>= λ reply.
          keep_segment path offset size reply.0
            (receive (cut reply.2) (record { total_size = size; written = [] }))

  -- `find_region`
  unfoldable pub find_region : Bytes → Outcome Bytes
  unfolding read_fully named first_text
  find_region bucket =
      read_fully env (codes "GET")
        (record { zone = codes "s3"; bucket = bucket; path = codes "/?location" }) [] []
      >>= λ reg_data. elim (env.parse_xml reg_data) [
        | none ↦
            lift false (err err_warn (codes "Can't find region, bad document received. ")) >>= λ _.
            crashed
        | some doc ↦ elim (named (codes "LocationConstraint") doc) [
          | no_nodes ↦
              lift false (err err_warn (codes "Incorrect document format - no location id"))
              >>= λ _. crashed
          | sibling n ns ↦ elim (first_text (sibling n ns)) [
            | none ↦ done (codes "s3")
            | some region ↦ done (codes "s3-" ++ region)
          ]
        ]
      ]

  -- `set_acl`; the header does not depend on the argument.
  unfoldable pub set_acl : S3Path → Bytes → Outcome Bytes
  unfolding read_fully assign_header
  set_acl path acl =
      read_fully env (codes "PUT") (with_suffix path (codes "?acl")) []
        (assign_header (codes "x-amz-acl") (codes "public-read") [])
