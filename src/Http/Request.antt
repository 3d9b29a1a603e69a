-- ===== src/Http/Request.antt =====
-- http/socks_http_handler.hpp and http/socks_http_handler.cpp: `RequestInfo`.
pub mod Headers
pub mod Parse
pub mod Outcomes
pub mod Tests
use cppsocks.Base.{ℕ, ◌+◌, Bool, true, false, not, ◌&&◌, ◌||◌, Option, none, some}
use cppsocks.Base.{List, [], ◌∷◌, ◌++◌, length, take, drop, ltb, if◌then◌else◌}
use cppsocks.Base.Bytes.{codes, c_str, text_eq}
use cppsocks.Base.Text.{Text, starts_with, find_text, find_char, before_char, lines}
use cppsocks.Base.Outcome.{Result, ok, err, thrown, fault, invalid_argument}
use cppsocks.Base.Effect.{M, continue, return, raise, lift, ◌>>=◌, ◌>>◌}

pub data RequestType : Type 0 where
  undefined get get_ws : RequestType

abbrev pub HeadersMap : Type 0
HeadersMap = List (Text × Text)

-- `path` is the C string that `_path` holds.
pub record RequestInfo : Type 0 where
  pub request_type : RequestType
  pub path : Text
  pub headers : HeadersMap

abbrev pub no_request : RequestInfo
no_request = record { request_type = undefined; path = []; headers = [] }

-- `_path` has room for that many characters, the NUL included.
abbrev pub max_path_len : ℕ
max_path_len = 1024

-- `std::map::find`.
unfoldable pub find : Text → HeadersMap → Option Text
find key [] = none
find key ((k, v) ∷ headers) =
    let later = find key headers in if text_eq k key then some v else later

-- `std::map::emplace` leaves a key alone that is there.
unfoldable pub emplace : Text → Text → HeadersMap → HeadersMap
emplace key value headers = elim (find key headers) [
  | none ↦ headers ++ ((key, value) ∷ [])
  | some v ↦ headers
]

-- The loop over the lines behind the first.
unfoldable pub parse_lines : List Text → HeadersMap → HeadersMap
parse_lines [] headers = headers
parse_lines (line ∷ ls) headers = elim (find_text (codes ": ") line) [
  | none ↦ headers
  | some pos ↦ parse_lines ls (emplace (take pos line) (drop (pos + 2) line) headers)
]

unfoldable pub skip_line : List Text → List Text
skip_line [] = []
skip_line (l ∷ ls) = ls

unfoldable pub parse_headers : Text → HeadersMap → HeadersMap
parse_headers request headers = parse_lines (skip_line (lines request)) headers

unfoldable pub has_header_value : HeadersMap → Text → Text → Bool
has_header_value headers key value = elim (find key headers) [
  | none ↦ false
  | some v ↦ elim (find_text value v) [ none ↦ false | some pos ↦ true ]
]

unfoldable pub has_header_field : HeadersMap → Text → Bool
has_header_field headers key = elim (find key headers) [ none ↦ false | some v ↦ true ]

unfoldable pub is_ws_request : HeadersMap → Bool
is_ws_request headers =
    has_header_value headers (codes "Upgrade") (codes "websocket")
    && (has_header_value headers (codes "Connection") (codes "Upgrade")
        || has_header_value headers (codes "Connection") (codes "upgrade"))
    && has_header_field headers (codes "Sec-WebSocket-Key")

-- The loop that copies the path up to a `?`, and the NUL behind it.
copy_path : Text → M RequestInfo (Unit {0})
copy_path path info =
    if ltb (length path) max_path_len
    then (ok tt, record info { path = path })
    else (err fault, info)

set_type : RequestType → M RequestInfo (Unit {0})
set_type t info = (ok tt, record info { request_type = t })

-- `parseHeaders` and what follows it.
read_headers : Text → M RequestInfo (Unit {0})
unfolding set_type
read_headers text info =
    let headers = parse_headers text info.headers in
    let info' = record info { headers = headers } in
    if is_ws_request headers then set_type get_ws info' else (ok tt, info')

-- From the character behind the first space on.
pub read_path : Text → Text → M RequestInfo (Unit {0})
unfolding copy_path read_headers
read_path text path = elim (find_char b' ' path) [
  | none ↦ raise invalid_argument
  | some path_end ↦ (do copy_path (before_char b'?' (take path_end path)); read_headers text)
]

-- From the test of the method on.
pub read_text : Text → M RequestInfo (Unit {0})
unfolding read_path set_type
read_text text = if not (starts_with (codes "GET") text) then raise invalid_argument else (do
  set_type get
  elim (find_char b' ' text) [
    | none ↦ raise invalid_argument
    | some pos ↦ read_path text (drop (pos + 1) text)
  ])

unfoldable pub parse : List ℕ → ℕ → M RequestInfo (Unit {0})
unfolding read_text
parse request len =
    if ltb len 3 then raise invalid_argument else (lift (c_str request) >>= λ text. read_text text)
