-- ===== src/Http/Response/Emits.antt =====
-- What code puts on the wire of an open connection whose socket makes progress.
use cppsocks.Base.{ℕ, ◌^◌, ◌≤◌, ◌<◌, false, Option, none, some}
use cppsocks.Base.{List, [], ◌++◌, append-nil, length, length-append, ◌≡◌, refl, ap, ◌∙◌, arith}
use cppsocks.Base.Bytes.{codes}
use cppsocks.Base.Decimal.{decimal, length-decimal}
use cppsocks.Base.Text.{Text, find_text, starts_with}
use mathlib.Core.Path.{subst}
use cppsocks.Base.Outcome.{ok}
use cppsocks.Base.Effect.{M, continue, return, ◌>>◌}
use cppsocks.Tcp.Connection.{Net, World}
use cppsocks.Tcp.Connection.Laws.{Sent, Sent-nil, Sent-trans, send-Sent}
use cppsocks.Tcp.Connection.Serving.{Serves}
use cppsocks.Http.Response.{
  newline, status_text, length_text, put, http_response_code, end_headers, http_200, http_403,
  http_404, http_500, write,
}

-- The code returns and has put exactly these bytes on the wire; the connection stays open.
abbrev pub Emits : M World (Unit {0}) → List ℕ → Type 0
Emits m bytes =
    (w : World) → w.closed ≡ false → (w' : World) × (m w ≡ (ok tt, w')) × Sent w bytes w'

pub Emits-nil : Emits (return tt) []
Emits-nil w still_open = (w, refl, Sent-nil w)

pub Emits->> :
    (m k : M World (Unit {0})) (xs ys : List ℕ)
    → Emits m xs
    → Emits k ys
    → Emits (m >> k) (xs ++ ys)
Emits->> m k xs ys hm hk w still_open =
    let (w', e, s) = hm w still_open in
    let (w'', e', s') = hk w' (s.same_closed ∙ still_open) in
    (w'', ap (λ r. continue r (λ _. k)) e ∙ e', Sent-trans s s')

module _ (net : Net) (cap : ℕ) (serves : Serves net cap) where
  pub write-Emits :
      (bytes after : List ℕ)
      → length bytes ≤ cap
      → Emits (write net (bytes ++ after) (length bytes)) bytes
  unfolding write
  write-Emits bytes after h w still_open =
      let (w', e, s) =
        send-Sent net serves.delivers bytes after w (omega (arith, serves.fits))
          (omega (arith, serves.enough)) still_open in
      (w', ap (λ r. continue r (λ n. return tt)) e, s)

  pub write_whole-Emits :
      (bytes : List ℕ) → length bytes ≤ cap → Emits (write net bytes (length bytes)) bytes
  write_whole-Emits bytes h =
      subst (λ m. Emits (write net m (length bytes)) bytes) (append-nil bytes)
        (write-Emits bytes [] h)

  pub put-Emits : (text : Text) → length text ≤ cap → Emits (put net text) text
  unfolding put write
  put-Emits text h = write_whole-Emits text h

  -- A complete header: the status, the server, the length of the body, and the empty line.
  pub http_200-Emits :
      (content_length : Option ℕ)
      → length (length_text content_length) ≤ cap
      → 100 ≤ cap
      → Emits
          (http_200 net content_length)
          (status_text (codes "200 OK") ++ (length_text content_length ++ newline))
  unfolding http_200 http_response_code end_headers
  http_200-Emits content_length h room =
      Emits->> _ _ (status_text (codes "200 OK")) (length_text content_length ++ newline)
        (put-Emits (status_text (codes "200 OK")) (omega arith))
        (Emits->> _ _ (length_text content_length) newline
          (put-Emits (length_text content_length) h) (put-Emits newline (omega arith)))

  -- On an open connection over a socket that makes progress, each error response is a status
  -- line and a `Server` line. The empty line that ends a header is in none of them.
  pub error-Sent :
      (w : World)
      → 100 ≤ cap
      → w.closed ≡ false
      → ((w' : World) × (http_403 net w ≡ (ok tt, w'))
          × Sent w (status_text (codes "403 Forbidden")) w')
        × ((w' : World) × (http_404 net w ≡ (ok tt, w'))
            × Sent w (status_text (codes "404 Not Found")) w')
        × ((w' : World) × (http_500 net w ≡ (ok tt, w'))
            × Sent w (status_text (codes "500 Internal Server Error")) w')
        × (find_text (newline ++ newline) (status_text (codes "403 Forbidden")) ≡ none)
        × (find_text (newline ++ newline) (status_text (codes "404 Not Found")) ≡ none)
        × (find_text (newline ++ newline) (status_text (codes "500 Internal Server Error")) ≡ none)
  unfolding http_403 http_404 http_500 http_response_code find_text starts_with
  error-Sent w room still_open = (
    put-Emits (status_text (codes "403 Forbidden")) (omega arith) w still_open,
    put-Emits (status_text (codes "404 Not Found")) (omega arith) w still_open,
    put-Emits (status_text (codes "500 Internal Server Error")) (omega arith) w still_open,
    refl,
    refl,
    refl,
  )

pub length_text-le : (n : ℕ) → n < 2 ^ 64 → length (length_text (some n)) ≤ 100
length_text-le n h = omega (arith, length-append (decimal n) newline, length-decimal n h)
