-- ===== src/Http/Request/Outcomes.antt =====
-- Every way that `RequestInfo::parse` can end.
use cppsocks.Base.{ℕ, ◌≤◌, ◌<◌, true, some}
use cppsocks.Base.{List, ◌∷◌, ◌++◌, length, ◌≡◌, ap, ◌∙◌}
use cppsocks.Base.{arith, ◌⊎◌, if◌then◌else◌, take-append_length, All-append, le→ltb}
use cppsocks.Base.Bytes.{codes, c_str-append, IsText}
use cppsocks.Base.Text.{Text, Without, find_char-append}
use cppsocks.Base.Outcome.{ok, err, thrown, fault, invalid_argument}
use cppsocks.Http.Request.{
  get, get_ws, HeadersMap, RequestInfo, find, is_ws_request, has_header_field, copy_path, set_type,
  read_headers, read_path, read_text, parse, max_path_len,
}
use cppsocks.Http.Request.Headers.{header_text}
use cppsocks.Http.Request.Parse.{
  IsQuery, IsRequest, request_text, before_query, request_text_split, read_text_lem,
}

read_path_overflow :
    (text path query rest : Text) (info : RequestInfo)
    → Without b' ' (path ++ query)
    → Without b'?' path
    → IsQuery query
    → max_path_len ≤ length path
    → (read_path text ((path ++ query) ++ (b' ' ∷ rest)) info).0 ≡ err fault
unfolding read_path copy_path
read_path_overflow text path query rest info ht hp hq large = rw (
  find_char-append b' ' (path ++ query) rest ht,
  read_path,
  take-append_length (path ++ query) (b' ' ∷ rest),
  before_query path query hp hq,
  le→ltb (length path) max_path_len large,
)

-- A well-formed request whose path has 1024 characters or more is written past the end of the
-- path's buffer, for every `len` from 3 on.
pub parse_overflow :
    (path query version rest : Text) (hs : HeadersMap) (len : ℕ) (info : RequestInfo)
    → IsRequest path query version hs
    → max_path_len ≤ length path
    → 3 ≤ len
    → (parse (request_text path query version hs ++ (0 ∷ rest)) len info).0 ≡ err fault
unfolding parse
parse_overflow path query version rest hs len info well large enough =
    rw (le→ltb len 3 enough, c_str-append (request_text path query version hs) rest well.no_nul)
      (ap (λ r. r.0) (read_text_lem _ _ info (request_text_split path query version hs))
        ∙ read_path_overflow (request_text path query version hs) path query
            (version ++ (b'\r' ∷ b'\n' ∷ header_text hs)) (record info { request_type = get })
            (All-append _ path query well.path_plain.0 well.query_plain.1) well.path_plain.1
            well.query_plain.0 large)

-- A request that `parse` has returned from has a length of 3 at least and a path of less than
-- 1024 characters, and its type is GET_WS where its headers ask for an upgrade and GET where
-- not.
pub parse_classifies :
    (request : List ℕ) (len : ℕ) (info info' : RequestInfo)
    → parse request len info ≡ (ok tt, info')
    → (info'.request_type ≡ (if is_ws_request info'.headers then get_ws else get))
      × (length info'.path < max_path_len)
      × (3 ≤ len)
unfolding parse read_text read_path copy_path read_headers set_type
parse_classifies request len info info' h = ground arith

-- Headers that ask for an upgrade have the key that the handshake looks up.
pub is_ws_request-key :
    (hs : HeadersMap)
    → is_ws_request hs ≡ true
    → (v : Text) × (find (codes "Sec-WebSocket-Key") hs ≡ some v)
unfolding is_ws_request has_header_field
is_ws_request-key hs h = ground arith

-- On memory that holds a text and its NUL, `parse` returns, refuses the request with
-- `invalid_argument`, or writes past the end of the path's buffer; there is no other outcome.
pub parse_outcomes :
    (text rest : List ℕ) (len : ℕ) (info : RequestInfo)
    → IsText text
    → let r = (parse (text ++ (0 ∷ rest)) len info).0 in
      (r ≡ ok tt) ⊎ ((r ≡ err (thrown invalid_argument)) ⊎ (r ≡ err fault))
unfolding parse read_text read_path copy_path read_headers set_type
parse_outcomes text rest len info h = ground (arith, c_str-append text rest h)
