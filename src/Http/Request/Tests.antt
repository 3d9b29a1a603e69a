-- ===== src/Http/Request/Tests.antt =====
-- Requests as browsers write them.
use cppsocks.Base.{
  ℕ, zero, suc, All, All-append, ◌<◌, ◌≤◌, true, false, some, List, [], ◌∷◌, ◌++◌, length,
  replicate, length-replicate, if◌then◌else◌, ◌≡◌, ◌⊎◌, refl, arith,
}
use cppsocks.Base.Bytes.{codes, text_eq}
use cppsocks.Base.Text.{Text, lines, find_text, starts_with}
use cppsocks.Base.Outcome.{ok, err, thrown, fault, invalid_argument}
use cppsocks.Http.Request.{
  get, get_ws, HeadersMap, no_request, max_path_len, find, emplace, parse_lines, has_header_value,
  has_header_field, is_ws_request, parse,
}
use cppsocks.Http.Request.Headers.{
  or_else, emplace_all, find-emplace_all, header_text, as_read, parse_lines-header_text,
}
use cppsocks.Http.Request.Parse.{
  request_text, request_info, headers_of, IsRequest, parse-request_text,
}
use cppsocks.Http.Request.Outcomes.{
  parse_overflow, parse_classifies, is_ws_request-key, parse_outcomes,
}

abbrev pub path : Text
path = codes "/a"

abbrev pub query : Text
query = codes "?x=1"

abbrev pub version : Text
version = codes "HTTP/1.1"

abbrev pub plain_headers : HeadersMap
plain_headers = (codes "Host", codes "b") ∷ []

abbrev pub client_key : Text
client_key = codes "dGhlIHNhbXBsZSBub25jZQ=="

abbrev pub ws_headers : HeadersMap
ws_headers =
    (codes "Upgrade", codes "websocket")
    ∷ (codes "Connection", codes "Upgrade")
    ∷ (codes "Sec-WebSocket-Key", client_key)
    ∷ []

pub plain-IsRequest : IsRequest path query version plain_headers
plain-IsRequest = record {
  path_plain = ground arith;
  query_plain = ground arith;
  version_plain = ground arith;
  headers_plain = ground arith;
  no_nul = ground arith;
}

pub ws-IsRequest : IsRequest path query version ws_headers
ws-IsRequest = record {
  path_plain = ground arith;
  query_plain = ground arith;
  version_plain = ground arith;
  headers_plain = ground arith;
  no_nul = ground arith;
}

parse-request_text_example :
    parse (request_text path query version plain_headers ++ (0 ∷ [])) 39 no_request
    ≡ (ok tt, request_info path (headers_of [] plain_headers))
parse-request_text_example =
    parse-request_text path query version [] plain_headers 39 no_request plain-IsRequest
      (omega arith) (omega arith)

find-emplace_all_example :
    find (codes "Host") (emplace_all [] (plain_headers ++ ((codes "Host", codes "c") ∷ [])))
    ≡ or_else
        (find (codes "Host") [])
        (find (codes "Host") (plain_headers ++ ((codes "Host", codes "c") ∷ [])))
find-emplace_all_example =
    find-emplace_all (codes "Host") [] (plain_headers ++ ((codes "Host", codes "c") ∷ []))

parse_lines-header_text_example :
    parse_lines (lines (header_text plain_headers)) [] ≡ emplace_all [] (as_read plain_headers)
parse_lines-header_text_example =
    parse_lines-header_text plain_headers [] plain-IsRequest.headers_plain

parse_classifies_example :
    let info = request_info path (headers_of [] plain_headers) in
    (info.request_type ≡ (if is_ws_request info.headers then get_ws else get))
    × (length info.path < max_path_len)
    × (3 ≤ 39)
parse_classifies_example =
    parse_classifies (request_text path query version plain_headers ++ (0 ∷ [])) 39 no_request
      (request_info path (headers_of [] plain_headers)) parse-request_text_example

pub ws_headers-upgrade : is_ws_request (headers_of [] ws_headers) ≡ true
unfolding is_ws_request has_header_value has_header_field find emplace find_text starts_with text_eq
ws_headers-upgrade = refl

pub plain_headers-stay : is_ws_request (headers_of [] plain_headers) ≡ false
unfolding is_ws_request has_header_value has_header_field find emplace find_text starts_with text_eq
plain_headers-stay = refl

is_ws_request-key_example :
    (v : Text) × (find (codes "Sec-WebSocket-Key") (headers_of [] ws_headers) ≡ some v)
is_ws_request-key_example = is_ws_request-key (headers_of [] ws_headers) ws_headers-upgrade

parse_outcomes_example :
    let r = (parse (codes "POST / HTTP/1.1" ++ (0 ∷ [])) 15 no_request).0 in
    (r ≡ ok tt) ⊎ ((r ≡ err (thrown invalid_argument)) ⊎ (r ≡ err fault))
parse_outcomes_example = parse_outcomes (codes "POST / HTTP/1.1") [] 15 no_request (ground arith)

All-replicate : (P : ℕ → Type 0) (x n : ℕ) → P x → All P (replicate n x)
All-replicate P x zero p = tt
All-replicate P x (suc n) p = (p, All-replicate P x n p)

-- A request for a path of `n` letters.
long-IsRequest : (n : ℕ) → IsRequest (replicate n b'x') [] version []
long-IsRequest n = record {
  path_plain = (
    All-replicate _ b'x' n (ground arith),
    All-replicate _ b'x' n (ground arith),
    All-replicate _ b'x' n (ground arith),
  );
  query_plain = ground arith;
  version_plain = ground arith;
  headers_plain = tt;
  no_nul = (
    ground arith,
    (
      ground arith,
      (
        ground arith,
        (
          ground arith,
          All-append _ (first_rest n) _
              (All-append _ (replicate n b'x') _ (All-replicate _ b'x' n (ground arith))
                (ground arith))
              (ground arith),
        ),
      ),
    ),
  );
}
  where
    first_rest : ℕ → List ℕ
    first_rest m = replicate m b'x' ++ (b' ' ∷ (version ++ (b'\r' ∷ [])))

parse_overflow_example :
    (parse (request_text (replicate max_path_len b'x') [] version [] ++ (0 ∷ [])) 1050 no_request).0
    ≡ err fault
parse_overflow_example =
    parse_overflow (replicate max_path_len b'x') [] version [] [] 1050 no_request
      (long-IsRequest max_path_len) (omega (arith, length-replicate max_path_len x)) (omega arith)
  where
    x : ℕ
    x = b'x'
