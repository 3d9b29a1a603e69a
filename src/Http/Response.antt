-- ===== src/Http/Response.antt =====
-- http/socks_http_handler.hpp and http/socks_http_handler.cpp: `HttpConnection`.
pub mod Emits
pub mod Tests
use cppsocks.Base.{ℕ, List, [], ◌∷◌, ◌++◌, length, Option, none, some}
use cppsocks.Base.Bytes.{codes}
use cppsocks.Base.Decimal.{decimal}
use cppsocks.Base.Text.{Text}
use cppsocks.Base.Outcome.{ok}
use cppsocks.Base.Effect.{M, continue, return, ◌>>=◌, ◌>>◌}
use cppsocks.Tcp.Connection.{Net, World, send}

abbrev pub newline : Text
newline = b'\r' ∷ b'\n' ∷ []

abbrev pub status_text : Text → Text
status_text response_code =
    codes "HTTP/1.1"
    ++ (codes " " ++ (response_code ++ (newline ++ (codes "Server: CPP Socks" ++ newline))))

-- A `std::streampos`: `none` is the -1 of a stream that failed.
abbrev pub streampos_text : Option ℕ → Text
streampos_text none = codes "-1"
streampos_text (some n) = decimal n

abbrev pub length_text : Option ℕ → Text
length_text content_length = codes "Content-Length: " ++ (streampos_text content_length ++ newline)

module _ (net : Net) where
  -- `tcpConnection->send` of a whole string, its result unused.
  unfoldable pub put : Text → M World (Unit {0})
  put text = do n ← send net text (length text); return tt

  unfoldable pub http_response_code : Text → M World (Unit {0})
  http_response_code response_code = put (status_text response_code)

  unfoldable pub end_headers : M World (Unit {0})
  end_headers = put newline

  unfoldable pub http_200 : Option ℕ → M World (Unit {0})
  http_200 content_length = do
    http_response_code (codes "200 OK")
    put (length_text content_length)
    end_headers

  unfoldable pub http_403 : M World (Unit {0})
  http_403 = http_response_code (codes "403 Forbidden")

  unfoldable pub http_404 : M World (Unit {0})
  http_404 = http_response_code (codes "404 Not Found")

  unfoldable pub http_500 : M World (Unit {0})
  http_500 = http_response_code (codes "500 Internal Server Error")

  unfoldable pub write : List ℕ → ℕ → M World (Unit {0})
  write buf len = do n ← send net buf len; return tt
