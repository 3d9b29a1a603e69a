-- ===== src/Http/Request/Parse.antt =====
-- `RequestInfo::parse` on well-formed requests.
use cppsocks.Base.{ℕ, ◌≤◌, ◌<◌, Bool-cases, inl, inr}
use cppsocks.Base.{[], ◌∷◌, ◌++◌, append_assoc, append-nil, length, All, ◌≡◌, refl, sym, ap, ◌∙◌}
use mathlib.Core.Path.{subst}
use cppsocks.Base.{arith, if◌then◌else◌, take-append_length, All-append, le→ltb, lt→ltb}
use cppsocks.Base.Bytes.{codes, c_str-append, IsText}
use cppsocks.Base.Text.{
  Text, Without, lines-append, find_char, find_char-append, before_char, before_char_all,
  before_char-append, starts_with,
}
use cppsocks.Base.Outcome.{ok}
use cppsocks.Http.Request.{
  get, get_ws, HeadersMap, RequestInfo, parse_headers, skip_line, is_ws_request, copy_path,
  set_type, read_headers, read_path, read_text, parse, max_path_len,
}
use cppsocks.Http.Request.Headers.{
  emplace_all, as_read, header_text, IsHeader, parse_lines-header_text,
}

-- A query is empty or begins with a question mark.
abbrev pub IsQuery : Text → Type 0
IsQuery [] = Unit {0}
IsQuery (b ∷ q) = b ≡ b'?'

abbrev pub first_line : Text → Text → Text → Text
first_line path query version =
    codes "GET " ++ (path ++ (query ++ (b' ' ∷ (version ++ (b'\r' ∷ [])))))

-- A GET request as a client writes it.
abbrev pub request_text : Text → Text → Text → HeadersMap → Text
request_text path query version hs = first_line path query version ++ (b'\n' ∷ header_text hs)

abbrev pub headers_of : HeadersMap → HeadersMap → HeadersMap
headers_of old hs = emplace_all old (as_read hs)

-- What is read from such a request.
abbrev pub request_info : Text → HeadersMap → RequestInfo
request_info path headers = record {
  request_type = if is_ws_request headers then get_ws else get;
  path = path;
  headers = headers;
}

pub before_query :
    (path query : Text)
    → Without b'?' path
    → IsQuery query
    → before_char b'?' (path ++ query) ≡ path
before_query path [] h q = ap (before_char b'?') (append-nil path) ∙ before_char_all b'?' path h
before_query path (b ∷ query) h q = rw q (before_char-append b'?' path query h)

read_headers_lem :
    (text path : Text) (old hs : HeadersMap)
    → parse_headers text old ≡ hs
    → read_headers text (record { request_type = get; path = path; headers = old })
      ≡ (ok tt, request_info path hs)
unfolding read_headers set_type
read_headers_lem text path old hs e =
    rw e (elim (Bool-cases (is_ws_request hs)) [ inl ws ↦ rw ws | inr plain ↦ rw plain ])

read_path_lem :
    (text path query rest old_path : Text) (old hs : HeadersMap)
    → Without b' ' (path ++ query)
    → Without b'?' path
    → IsQuery query
    → length path < max_path_len
    → parse_headers text old ≡ hs
    → read_path text
        ((path ++ query) ++ (b' ' ∷ rest))
        (record { request_type = get; path = old_path; headers = old })
      ≡ (ok tt, request_info path hs)
unfolding read_path copy_path
read_path_lem text path query rest old_path old hs ht hp hq fits e =
    rw
      (
        find_char-append b' ' (path ++ query) rest ht,
        read_path,
        take-append_length (path ++ query) (b' ' ∷ rest),
        before_query path query hp hq,
        lt→ltb (length path) max_path_len fits,
      )
      (read_headers_lem text path old hs e)

-- The parts of a well-formed request: no spaces or question marks where they would end a part,
-- no newlines, and no NUL.
pub record IsRequest (path query version : Text) (hs : HeadersMap) : Type 0 where
  pub path_plain : Without b' ' path × Without b'?' path × Without b'\n' path
  pub query_plain : IsQuery query × Without b' ' query × Without b'\n' query
  pub version_plain : Without b'\n' version
  pub headers_plain : All IsHeader hs
  pub no_nul : IsText (request_text path query version hs)

first_line-Without :
    (path query version : Text)
    → Without b'\n' path
    → Without b'\n' query
    → Without b'\n' version
    → Without b'\n' (first_line path query version)
first_line-Without path query version hp hq hv = (
  ground arith,
  (
    ground arith,
    (
      ground arith,
      (
        ground arith,
        All-append _ path _ hp
            (All-append _ query _ hq (ground arith, All-append _ version _ hv (ground arith, tt))),
      ),
    ),
  ),
)

parse_headers-request :
    (path query version : Text) (hs old : HeadersMap)
    → IsRequest path query version hs
    → parse_headers (request_text path query version hs) old ≡ headers_of old hs
unfolding parse_headers skip_line
parse_headers-request path query version hs old well =
    rw
      (lines-append (first_line path query version) (header_text hs) (
        first_line-Without path query version well.path_plain.2 well.query_plain.2
          well.version_plain))
      (parse_lines-header_text hs old well.headers_plain)

-- The first line split at its spaces.
pub request_text_split :
    (path query version : Text) (hs : HeadersMap)
    → request_text path query version hs
      ≡ codes "GET " ++ ((path ++ query) ++ (b' ' ∷ (version ++ (b'\r' ∷ b'\n' ∷ header_text hs))))
request_text_split path query version hs = simp append_assoc

read_text_get :
    (target : Text) (info : RequestInfo)
    → read_text (codes "GET " ++ target) info
      ≡ read_path (codes "GET " ++ target) target (record info { request_type = get })
unfolding read_text set_type starts_with find_char
read_text_get target info = refl

pub read_text_lem :
    (target text : Text) (info : RequestInfo)
    → text ≡ codes "GET " ++ target
    → read_text text info ≡ read_path text target (record info { request_type = get })
read_text_lem target text info e =
    subst (λ t. read_text t info ≡ read_path t target (record info { request_type = get })) (sym e)
      (read_text_get target info)

-- A well-formed request whose path has less than 1024 characters is parsed to its path without
-- the query, to its headers, each value with the `\r` of its line and the first value of a key
-- kept, and to the type that the headers call for. `len` may be anything from 3 on.
pub parse-request_text :
    (path query version rest : Text) (hs : HeadersMap) (len : ℕ) (info : RequestInfo)
    → IsRequest path query version hs
    → length path < max_path_len
    → 3 ≤ len
    → parse (request_text path query version hs ++ (0 ∷ rest)) len info
      ≡ (ok tt, request_info path (headers_of info.headers hs))
unfolding parse
parse-request_text path query version rest hs len info well fits enough =
    rw (le→ltb len 3 enough, c_str-append (request_text path query version hs) rest well.no_nul)
      (read_text_lem _ _ info (request_text_split path query version hs)
        ∙ read_path_lem (request_text path query version hs) path query
            (version ++ (b'\r' ∷ b'\n' ∷ header_text hs)) info.path info.headers
            (headers_of info.headers hs)
            (All-append _ path query well.path_plain.0 well.query_plain.1) well.path_plain.1
            well.query_plain.0 fits (parse_headers-request path query version hs info.headers well))
