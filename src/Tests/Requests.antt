-- ===== src/Tests/Requests.antt =====
-- Runs of es3/connection.cpp and of the headers of es3/uploader.cpp.
use extremes.Base.{
  ℕ, ◌≡◌, ◌≢◌, refl, ◌<◌, ◌≤◌, ◌^◌, ◌||◌, arith, true, false, List, [], ◌∷◌, ◌++◌, Option, none,
  some, Bytes, codes, take, drop, leb, if◌then◌else◌, ◌==◌, bytes_cmp, inl, inr,
}
use extremes.Agenda.Worker.{is_retried}
use extremes.Common.{int_to_string, assign_header, strcasecmp, trim, is_space}
use extremes.Connection.Errors.{check_for_errors-is_retried, error_text}
use extremes.Connection.Headers.{find_mtime_and_size, find_colon}
use extremes.Connection.Requests.{
  Environment, Request, Reply, replied, curl_failed, failed, check_for_errors, contains,
}
use extremes.Connection.Callbacks.{feed}
use extremes.Connection.Callbacks.Reading.{feed-all, new_buf}
use extremes.Connection.Xml.{Node, Nodes, node, no_nodes, sibling, named, first_child, first_text}
use extremes.Errors.{Code, es3_exception}
use extremes.Sync.Tree.{S3Path}
use extremes.Upload.File.{LocalFile, file_uploader, up_to_date}
use extremes.Upload.File.{upload_headers}
use extremes.Upload.File.Lines.{stored, header_line}
use extremes.Upload.File.Carried.{Carries, is_other}
use extremes.Upload.File.Stored.{find_mtime_and_size-stored, file_uploader-up_to_date}

abbrev env : (Request → Reply) → (Bytes → Option Nodes) → Environment
env perform parse_xml = record {
  use_ssl = false;
  api_key = codes "KEY";
  secret_key = codes "SECRET";
  date = codes "Thu";
  hmac_sha1 = λ key text. key;
  escape = λ s. s;
  perform = perform;
  parse_xml = parse_xml;
}

abbrev there : S3Path
there = record { zone = codes "s3"; bucket = codes "b"; path = codes "/f" }

-- A server that holds seven bytes and sends the last five.
abbrev sends_hello : Environment
sends_hello = env (λ request. replied 206 [] (codes "hello")) (λ body. none)

abbrev halves : Bytes → List Bytes
halves body = take 3 body ∷ drop 3 body ∷ []

abbrev text_node : Bytes → Bytes → Node
text_node name text = node false name (sibling (node true text no_nodes) no_nodes)

abbrev error_doc : Nodes
error_doc =
    sibling
      (node false (codes "Error") (
        sibling (text_node (codes "Code") (codes "NoSuchUpload"))
          (sibling (text_node (codes "Message") (codes "The NoSuchUpload error")) no_nodes)))
      no_nodes

-- An error page that is not the server's own.
abbrev page_doc : Nodes
page_doc = sibling (node false (codes "html") no_nodes) no_nodes

abbrev fails : Nodes → Environment
fails doc = env (λ request. curl_failed []) (λ body. some doc)

not-found : ◌≤◌ 400 404
not-found = omega arith

doc-code : error_text (codes "Code") error_doc ≡ some (codes "NoSuchUpload")
unfolding named first_child first_text bytes_cmp
doc-code = refl

doc-message : error_text (codes "Message") error_doc ≡ some (codes "The NoSuchUpload error")
unfolding named first_child first_text bytes_cmp
doc-message = refl

check_for_errors-is_retried_example :
    (level : Code) × (check_for_errors (fails error_doc) 404 []
      ≡ failed true (
          es3_exception (record {
            code = level;
            desc = codes "NoSuchUpload" ++ codes " - " ++ codes "The NoSuchUpload error";
          })))
    × (is_retried (
          es3_exception (record {
            code = level;
            desc = codes "NoSuchUpload" ++ codes " - " ++ codes "The NoSuchUpload error";
          }))
        ≡ (leb 500 404
            || contains (codes "Idle connections will be closed") (codes "The NoSuchUpload error")
            || contains (codes "NoSuchUpload") (codes "The NoSuchUpload error")))
check_for_errors-is_retried_example =
    check_for_errors-is_retried (fails error_doc) 404 [] error_doc (codes "NoSuchUpload")
      (codes "The NoSuchUpload error") not-found refl doc-code doc-message

abbrev photo : LocalFile
photo = record {
  mtime = 1_361_111_111;
  size = 7_000_000;
  mode = 420;
  pays = true;
  mime = codes "image/x-raw";
}

time-small : photo.mtime < 2 ^ 64
time-small = omega arith

size-small : photo.size < 2 ^ 64
size-small = omega arith

mode-small : photo.mode < 2 ^ 32
mode-small = omega arith

stored-small : ◌<◌ 5_000_000 (2 ^ 64)
stored-small = omega arith

photo-timed : photo.mtime ≢ 0
photo-timed = omega arith

photo-filled : photo.size ≡ 0 → ◌≡◌ {A = ℕ} 5_000_000 0
photo-filled h = omega (arith, h)

-- A reply of S3 to a HEAD request.
abbrev head_reply : List Bytes
head_reply =
    codes "HTTP/1.1 200 OK\r\n"
    ∷ codes "Date: Thu, 21 Feb 2013 12:00:00 GMT\r\n"
    ∷ codes "Last-Modified: Wed, 20 Feb 2013 11:00:00 GMT\r\n"
    ∷ codes "ETag: \"0123-7\"\r\n"
    ∷ header_line (codes "x-amz-meta-last-modified", int_to_string photo.mtime)
    ∷ header_line (codes "x-amz-meta-size", int_to_string photo.size)
    ∷ header_line (codes "x-amz-meta-file-mode", int_to_string photo.mode)
    ∷ header_line (codes "x-amz-meta-compressed", codes "true")
    ∷ header_line (codes "Content-Encoding", codes "gzip")
    ∷ header_line (codes "Content-Type", photo.mime)
    ∷ header_line (codes "Content-Length", int_to_string 5_000_000)
    ∷ codes "Server: AmazonS3\r\n"
    ∷ codes "\r\n"
    ∷ []

head_reply-Carries : Carries (stored photo true 5_000_000) head_reply
unfolding upload_headers assign_header strcasecmp bytes_cmp is_other find_colon trim is_space
head_reply-Carries = (
  (
    inr refl,
    (
      inr refl,
      (
        inr refl,
        (
          inr refl,
          (
            inl (inr (inr (inr (inr (inl refl))))),
            (
              inl (inr (inr (inr (inr (inr (inl refl)))))),
              (
                inl (inr (inr (inr (inl refl)))),
                (
                  inl (inr (inr (inl refl))),
                  (
                    inl (inl refl),
                    (
                      inl (inr (inl refl)),
                      (
                        inl (inr (inr (inr (inr (inr (inr (inl refl))))))),
                        (inr refl, (inr refl, tt)),
                      ),
                    ),
                  ),
                ),
              ),
            ),
          ),
        ),
      ),
    ),
  ),
  (
    inr (inr (inr (inr (inr (inr (inr (inr (inl refl)))))))),
    (
      inr (inr (inr (inr (inr (inr (inr (inr (inr (inl refl))))))))),
      (
        inr (inr (inr (inr (inr (inr (inr (inl refl))))))),
        (
          inr (inr (inr (inr (inr (inr (inl refl)))))),
          (
            inr (inr (inr (inr (inl refl)))),
            (
              inr (inr (inr (inr (inr (inl refl))))),
              (inr (inr (inr (inr (inr (inr (inr (inr (inr (inr (inl refl)))))))))), tt),
            ),
          ),
        ),
      ),
    ),
  ),
)

find_mtime_and_size-stored_example : find_mtime_and_size 200 head_reply ≡ record {
  mtime = photo.mtime;
  raw_size = if photo.size == 0 then 5_000_000 else photo.size;
  remote_size = 5_000_000;
  mode = photo.mode;
  compressed = true;
  found = true;
}
find_mtime_and_size-stored_example =
    find_mtime_and_size-stored photo true 5_000_000 head_reply time-small size-small mode-small
      stored-small head_reply-Carries

file_uploader-up_to_date_example :
    file_uploader (find_mtime_and_size 200 head_reply) photo false ≡ up_to_date
file_uploader-up_to_date_example =
    file_uploader-up_to_date photo true false 5_000_000 head_reply time-small size-small mode-small
      stored-small photo-timed photo-filled head_reply-Carries

-- Three reads of a body of five bytes: two bytes, then up to two, then up to ten.
feed-all_example :
    ((feed (new_buf (codes "hello")) (2 ∷ 2 ∷ 10 ∷ [])).1 ≡ codes "hello")
    × ((feed (new_buf (codes "hello")) (2 ∷ 2 ∷ 10 ∷ [])).0.hashed ≡ codes "hello")
feed-all_example = feed-all (codes "hello") (2 ∷ 2 ∷ 10 ∷ []) (omega arith)
