-- ===== src/Connection/Requests.antt =====
-- es3/connection.cpp: how a request is put together and signed, and how its reply is checked.
use extremes.Base.{
  ℕ, ◌-◌, ◌^◌, Bool, true, false, ◌||◌, List, [], ◌∷◌, ◌++◌, Option, none, some, map, Bytes, codes,
  ltb, leb, if◌then◌else◌, length, bytes_key,
}
use extremes.Base64.{base64_encode}
use extremes.Common.{HeaderMap, assign_header, try_get, lower, int_to_string, is_empty}
use extremes.Connection.Xml.{Nodes, named, first_child, first_text}
use extremes.Errors.{Code, err_fatal, err_warn, Result, ok, throw, Exception, std_exception, err}
use extremes.Paths.{strip_prefix}
use extremes.Sync.Tree.{S3Path}

-- What a call comes to: a value; an exception, with whether the connection in use had been tainted
-- before; or the end of the program, by a null pointer, a failed assertion or `abort`.
pub data Outcome {ℓ} (A : Type ℓ) : Type ℓ where
  done : A → Outcome A
  failed : Bool → Exception → Outcome A
  crashed : Outcome A

infixl 5 ◌>>=◌
abbrev pub ◌>>=◌ {ℓ κ} : {A : Type ℓ} {B : Type κ} → Outcome A → (A → Outcome B) → Outcome B
done a >>= f = f a
failed tainted e >>= f = failed tainted e
crashed >>= f = crashed

abbrev pub lift {ℓ} : {A : Type ℓ} → Bool → Result A → Outcome A
lift tainted (ok a) = done a
lift tainted (throw e) = failed tainted e

-- What is set on a handle before `curl_easy_perform`; `body` is what `READFUNCTION` sends.
pub record Request : Type 0 where
  pub verb : Bytes
  pub url : Bytes
  pub headers : List Bytes
  pub range : Option Bytes
  pub body : Option Bytes

-- What `curl_easy_perform` gives: an error with its text, or the code, the header lines and the bytes
-- of the reply.
pub data Reply : Type 0 where
  curl_failed : Bytes → Reply
  replied : ℕ → List Bytes → Bytes → Reply

-- The options that the requests use, and the code outside: the clock, HMAC-SHA1, curl, TinyXML.
pub record Environment : Type 0 where
  pub use_ssl : Bool
  pub api_key : Bytes
  pub secret_key : Bytes
  pub date : Bytes
  pub hmac_sha1 : Bytes → Bytes → Bytes
  pub escape : Bytes → Bytes
  pub perform : Request → Reply
  pub parse_xml : Bytes → Option Nodes

abbrev or_slash : Bytes → Bytes
or_slash path = if is_empty path then codes "/" else path

abbrev pub begins_with : Bytes → Bytes → Bool
begins_with prefix s = elim (strip_prefix prefix s) [ none ↦ false | some rest ↦ true ]

-- `find(text)!=npos`
abbrev pub contains : Bytes → Bytes → Bool
contains text [] = is_empty text
contains text (c ∷ s) = begins_with text (c ∷ s) || contains text s

-- The lines of `amz_headers`.
unfoldable pub amz_headers : HeaderMap → Bytes
unfolding strip_prefix
amz_headers [] = []
amz_headers ((k, v) ∷ m) =
    let rest = amz_headers m in
    if begins_with (codes "x-amz") (lower k)
    then lower k ++ codes ":" ++ v ++ codes "\n" ++ rest
    else rest

-- `stringToSign`
unfoldable pub string_to_sign : Bytes → S3Path → HeaderMap → Bytes → Bytes
unfolding amz_headers try_get assign_header
string_to_sign verb path opts date =
    verb
    ++ codes "\n"
    ++ try_get opts (codes "content-md5")
    ++ codes "\n"
    ++ try_get opts (codes "content-type")
    ++ codes "\n\n"
    ++ amz_headers (assign_header (codes "x-amz-date") date opts)
    ++ codes "/"
    ++ path.bucket
    ++ path.path

abbrev option_line : Bytes × Bytes → Bytes
option_line (k, v) = k ++ codes ": " ++ v

-- The last branch of `check_for_errors`, for the level that the code gives.
unfoldable pub error_level : Code → Bytes → Code
error_level level message =
    if contains (codes "Idle connections will be closed") message
      || contains (codes "NoSuchUpload") message
    then err_warn
    else level

-- What is thrown for a reply with an error code and this body, once the connection is tainted.
unfoldable pub throw_reply : Option Nodes → Code → Bytes → Outcome (Unit {0})
unfolding named first_child first_text error_level
throw_reply none level def_error = lift true (err level def_error)
throw_reply (some doc) level def_error =
    elim (first_text (first_child (codes "Message") (named (codes "Error") doc))) [
      | none ↦ crashed
      | some message ↦ elim (first_text (first_child (codes "Code") (named (codes "Error") doc))) [
        | none ↦ crashed
        | some code ↦ lift true (err (error_level level message) (code ++ codes " - " ++ message))
      ]
    ]

module _ (env : Environment) where
  -- `checked`, round `curl_easy_perform`: `err` throws, so that neither the call of `taint` behind it
  -- nor what stands behind `>>=` is reached.
  unfoldable pub checked : Reply → Outcome (ℕ × List Bytes × Bytes)
  checked (curl_failed text) =
      lift false (err err_warn (codes "curl error: " ++ text)) >>= λ _. crashed
  checked (replied code lines body) = done (code, lines, body)

  -- `check_for_errors`
  unfoldable pub check_for_errors : ℕ → Bytes → Outcome (Unit {0})
  unfolding throw_reply int_to_string
  check_for_errors code body =
      if ltb code 400
      then done tt
      else throw_reply (env.parse_xml body) (if leb 500 code then err_warn else err_fatal)
          (codes "HTTP code " ++ int_to_string code ++ codes " received.")

  -- `set_url`
  unfoldable pub url_of : S3Path → Bytes → Bytes
  url_of path args =
      (if env.use_ssl then codes "https://" else codes "http://")
      ++ path.bucket
      ++ codes "."
      ++ path.zone
      ++ codes ".amazonaws.com"
      ++ or_slash path.path
      ++ args

  -- `sign`
  unfoldable pub sign : Bytes → Outcome Bytes
  unfolding base64_encode
  sign str =
      if leb (2 ^ 31 - 1) (length str)
      then failed false std_exception
      else done (base64_encode (env.hmac_sha1 env.secret_key str))

  -- `authenticate_req`
  unfoldable pub authenticate_req : List Bytes → Bytes → S3Path → HeaderMap → Outcome (List Bytes)
  unfolding string_to_sign sign
  authenticate_req header_list verb path opts =
      sign (string_to_sign verb path opts env.date) >>= λ sign_res. done (
        header_list
        ++ (codes "x-amz-date: " ++ env.date)
          ∷ (codes "Authorization: AWS " ++ env.api_key ++ codes ":" ++ sign_res)
          ∷ [])

  -- `prepare`
  unfoldable pub prepare : Bytes → S3Path → HeaderMap → Outcome Request
  unfolding authenticate_req url_of
  prepare verb path opts =
      authenticate_req (map option_line opts) verb (record path { path = or_slash path.path }) opts
      >>= λ headers. done (record {
        verb = verb;
        url = url_of path [];
        headers = headers;
        range = none;
        body = none;
      })

  -- `read_fully`
  unfoldable pub read_fully : Bytes → S3Path → Bytes → HeaderMap → Outcome Bytes
  unfolding prepare checked check_for_errors
  read_fully verb path args opts = prepare verb path opts >>= λ request.
      let full = if is_empty args then request else record request { url = url_of path args } in
      checked (env.perform full) >>= λ reply.
      let (code, lines, body) = reply in check_for_errors code body >>= λ _. done body
