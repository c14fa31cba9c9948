-- ===== src/Connection/Errors.antt =====
-- es3/connection.cpp: what a reply with an error comes to.
use extremes.Base.{
  ℕ, ◌≤◌, ◌<◌, ◌≡◌, ◌≢◌, refl, sym, ◌∙◌, Bool, true, false, ◌||◌, List, [], ◌∷◌, ◌++◌, Option, none,
  some, Bytes, codes, arith, leb, ltb, if◌then◌else◌, Bool-cases, Option-cases, inl, inr,
}
use extremes.Agenda.Worker.{is_retried}
use extremes.Common.{HeaderMap, int_to_string, is_empty}
use extremes.Connection.Requests.{
  Environment, Request, Reply, replied, curl_failed, Outcome, done, failed, crashed,
  check_for_errors, throw_reply, contains, error_level, lift, ◌>>=◌, read_fully, checked, prepare,
  url_of,
}
use extremes.Connection.Xml.{Nodes, named, first_child, first_text}
use extremes.Errors.{Code, err_fatal, err_warn, err, Exception, es3_exception}
use extremes.Sync.Tree.{S3Path}

-- The text of a child of the error element.
abbrev pub error_text : Bytes → Nodes → Option Bytes
error_text name doc = first_text (first_child name (named (codes "Error") doc))

abbrev level_of : Bool → Bool → Bool → Code
level_of five idle gone = if five || idle || gone then err_warn else err_fatal

abbrev error_of : Bool → Bool → Bool → Bytes → Exception
error_of five idle gone text =
    es3_exception (record { code = level_of five idle gone; desc = text })

lift-level :
    (five idle gone : Bool) (text : Bytes)
    → lift true
        (err (if idle || gone then err_warn else (if five then err_warn else err_fatal)) text)
      ≡ failed true (error_of five idle gone text)
lift-level true true gone text = refl
lift-level true false true text = refl
lift-level true false false text = refl
lift-level false true gone text = refl
lift-level false false true text = refl
lift-level false false false text = refl

error_of-is_retried :
    (five idle gone : Bool) (text : Bytes)
    → is_retried (error_of five idle gone text) ≡ (five || idle || gone)
error_of-is_retried true idle gone text = refl
error_of-is_retried false true gone text = refl
error_of-is_retried false false true text = refl
error_of-is_retried false false false text = refl

module _ (env : Environment) (code : ℕ) (body : Bytes) (doc : Nodes) where
  -- An error reply whose document holds a code and a message is thrown with both in its
  -- text, `<code> - <message>`, on a connection that is tainted; a task that ends with it is tried again exactly when the HTTP code is 500 or
  -- above, or the message is one of the two that the source looks for.
  pub check_for_errors-is_retried :
      (text message : Bytes)
      → 400 ≤ code
      → env.parse_xml body ≡ some doc
      → error_text (codes "Code") doc ≡ some text
      → error_text (codes "Message") doc ≡ some message
      → (level : Code) × (check_for_errors env code body
          ≡ failed true
              (es3_exception (record { code = level; desc = text ++ codes " - " ++ message })))
        × (is_retried
              (es3_exception (record { code = level; desc = text ++ codes " - " ++ message }))
            ≡ (leb 500 code
                || contains (codes "Idle connections will be closed") message
                || contains (codes "NoSuchUpload") message))
  unfolding check_for_errors throw_reply error_level
  check_for_errors-is_retried text message high parsed t m =
      let late : ltb code 400 ≡ false = ground arith in
      let five = leb 500 code in
      let idle = contains (codes "Idle connections will be closed") message in
      let gone = contains (codes "NoSuchUpload") message in
      (
        level_of five idle gone,
        rw (late, parsed, throw_reply, m, t)
            (lift-level five idle gone (text ++ codes " - " ++ message)),
        error_of-is_retried five idle gone (text ++ codes " - " ++ message),
      )

  -- An error reply whose document holds no message ends the program, whatever the code.
  check_for_errors-crashed :
      400 ≤ code
      → env.parse_xml body ≡ some doc
      → error_text (codes "Message") doc ≡ none
      → check_for_errors env code body ≡ crashed
  unfolding check_for_errors throw_reply
  check_for_errors-crashed high parsed m =
      let late : ltb code 400 ≡ false = ground arith in rw (late, parsed, throw_reply, m) refl

abbrev IsFor : Environment → Bytes → S3Path → Bytes → Request → Type 0
IsFor env verb path args request = (request.verb ≡ verb) × (request.url ≡ url_of env path args)

made :
    (m : Outcome (List Bytes)) (verb url : Bytes) (request : Request)
    → (m >>= λ headers.
        done (record { verb = verb; url = url; headers = headers; range = none; body = none }))
      ≡ done request
    → (request.verb ≡ verb) × (request.url ≡ url)
made (done headers) verb url request h = (cc, cc)
made (failed tainted e) verb url request h = cc
made crashed verb url request h = cc

pub prepare-done :
    (env : Environment) (verb : Bytes) (path : S3Path) (opts : HeaderMap) (request : Request)
    → prepare env verb path opts ≡ done request
    → (request.verb ≡ verb) × (request.url ≡ url_of env path [])
unfolding prepare
prepare-done env verb path opts request h = made _ verb (url_of env path []) request h

level-rejects :
    (five idle gone : Bool) (text : Bytes)
    → lift true
        (err (if idle || gone then err_warn else (if five then err_warn else err_fatal)) text)
      ≢ done tt
level-rejects five idle gone text h = let thrown = lift-level five idle gone text in cc

reject :
    (doc : Option Nodes) (five : Bool) (text : Bytes)
    → throw_reply doc (if five then err_warn else err_fatal) text ≢ done tt
unfolding throw_reply error_level
reject none true text h = cc
reject none false text h = cc
reject (some doc) five text h = elim (Option-cases (error_text (codes "Message") doc)) [
  | inl no_message ↦
      let bad : throw_reply (some doc) (if five then err_warn else err_fatal) text ≡ crashed =
        rw (throw_reply, no_message) refl in
      cc
  | inr (message, m) ↦ elim (Option-cases (error_text (codes "Code") doc)) [
    | inl no_code ↦
        let bad : throw_reply (some doc) (if five then err_warn else err_fatal) text ≡ crashed =
          rw (throw_reply, m, no_code) refl in
        cc
    | inr (code, c) ↦
        level-rejects five (contains (codes "Idle connections will be closed") message)
          (contains (codes "NoSuchUpload") message) (code ++ codes " - " ++ message)
          (sym (rw (throw_reply, m, c) refl) ∙ h)
  ]
]

pub check_for_errors-done :
    (env : Environment) (code : ℕ) (body : Bytes)
    → check_for_errors env code body ≡ done tt
    → code < 400
unfolding check_for_errors
check_for_errors-done env code body h = elim (Bool-cases (ltb code 400)) [
  | inl early ↦ ground arith
  | inr late ↦
      let fails =
        reject (env.parse_xml body) (leb 500 code)
          (codes "HTTP code " ++ int_to_string code ++ codes " received.") in
      ground arith
]

accepted :
    (env : Environment) (r : Reply) (body : Bytes)
    → (checked env r >>= λ reply.
        let (code, lines, b) = reply in check_for_errors env code b >>= λ _. done b)
      ≡ done body
    → (code : ℕ) × (lines : List Bytes) × (r ≡ replied code lines body) × (code < 400)
unfolding checked
accepted env (curl_failed text) body h = cc
accepted env (replied code lines b) body h = go (check_for_errors env code b) refl h
  where
    go :
        (o : Outcome (Unit {0}))
        → check_for_errors env code b ≡ o
        → (o >>= λ _. done b) ≡ done body
        → (c : ℕ) × (l : List Bytes) × (replied code lines b ≡ replied c l body) × (c < 400)
    go (done _) e k = (code, lines, cc, check_for_errors-done env code b e)
    go (failed tainted x) e k = cc
    go crashed e k = cc

full-IsFor :
    (env : Environment) (verb : Bytes) (path : S3Path) (args : Bytes) (request : Request)
    → request.verb ≡ verb
    → request.url ≡ url_of env path []
    → IsFor env verb path args
        (if is_empty args then request else record request { url = url_of env path args })
full-IsFor env verb path [] request v u = (v, u)
full-IsFor env verb path (c ∷ args) request v u = (v, refl)

-- What `read_fully` returns is the whole body of a reply with a code below 400, to a request for the
-- path and arguments asked for.
pub read_fully-done :
    (env : Environment) (verb : Bytes) (path : S3Path) (args : Bytes) (opts : HeaderMap)
    (body : Bytes)
    → read_fully env verb path args opts ≡ done body
    → (request : Request) × (code : ℕ) × (lines : List Bytes) × (env.perform request
        ≡ replied code lines body)
      × (code < 400)
      × (request.verb ≡ verb)
      × (request.url ≡ url_of env path args)
unfolding read_fully prepare
read_fully-done env verb path args opts body h = go (prepare env verb path opts) refl h
  where
    go :
        (o : Outcome Request)
        → prepare env verb path opts ≡ o
        → (o >>= λ request.
            checked env (
              env.perform
                (if is_empty args then request else record request { url = url_of env path args }))
            >>= λ reply.
                let (code, lines, b) = reply in check_for_errors env code b >>= λ _. done b)
          ≡ done body
        → (request : Request) × (code : ℕ) × (lines : List Bytes) × (env.perform request
            ≡ replied code lines body)
          × (code < 400)
          × (request.verb ≡ verb)
          × (request.url ≡ url_of env path args)
    go (done request) e k =
        let full =
          if is_empty args then request else record request { url = url_of env path args } in
        let (code, lines, same, small) = accepted env (env.perform full) body k in
        let (v, u) = prepare-done env verb path opts request e in
        let (fv, fu) = full-IsFor env verb path args request v u in
        (full, code, lines, same, small, fv, fu)
    go (failed tainted x) e k = cc
    go crashed e k = cc
