-- ===== src/Http/Files.antt =====
-- http/socks_http_handler.hpp and http/socks_http_handler.cpp: `HttpFileHandler::do_GET`.
-- The handler's member `basePath` is read nowhere in it.
pub mod Serve
pub mod Access
pub mod Tests
use cppsocks.Base.{ℕ, zero, suc, Bool, true, false, Option, none, some, List, [], ◌∷◌, ◌++◌}
use cppsocks.Base.{length, take, drop, ltb, if◌then◌else◌, ◌==◌}
use cppsocks.Base.Bytes.{codes}
use cppsocks.Base.Text.{Text, find_text}
use cppsocks.Base.Outcome.{Result, ok, err, running}
use cppsocks.Base.Effect.{M, continue, return, ◌>>=◌, ◌>>◌}
use cppsocks.Tcp.Connection.{Net, World}
use cppsocks.Http.Request.{RequestInfo}
use cppsocks.Http.Response.{http_200, http_403, http_404, write}

-- The file system: what a stream opened on a path reads, and what `tellg` gives at its end.
pub record FileSystem : Type 0 where
  pub contents : Text → Option (List ℕ)
  pub file_size : Text → Option ℕ

abbrev pub buf_size : ℕ
buf_size = 4096

-- The path that is opened.
unfoldable pub local_path : Text → Text
local_path [] = codes "index.html"
local_path (c ∷ path) =
    if c == b'/' then elim path [ [] ↦ codes "index.html" | d ∷ more ↦ d ∷ more ] else c ∷ path

module _ (net : Net) where
  -- `do { in.read(buf, BUF_SIZE); write(buf, gcount); } while (gcount > 0)` on what is left.
  write_chunks : ℕ → ℕ → List ℕ → M World (Unit {0})
  write_chunks size zero left = λ w. (err running, w)
  write_chunks size (suc rounds) left =
      let chunk = take size left in
      let next = write_chunks size rounds (drop size left) in
      write net chunk (length chunk) >> (if length chunk == 0 then return tt else next)

  -- Each chunk but the last takes a byte at least.
  serve_file : Option ℕ → List ℕ → M World (Unit {0})
  unfolding write_chunks
  serve_file size content = do
    http_200 net size
    write_chunks buf_size (suc (length content)) content

  answer_file : Option (List ℕ) → Option ℕ → M World (Unit {0})
  unfolding serve_file
  answer_file none size = http_404 net
  answer_file (some content) size = serve_file size content

  pub open_file : FileSystem → Text → M World (Unit {0})
  unfolding answer_file
  open_file fs path = elim (find_text (codes "..") path) [
    | some pos ↦ http_403 net
    | none ↦ answer_file (fs.contents path) (fs.file_size path)
  ]

  unfoldable pub do_get : FileSystem → RequestInfo → M World (Unit {0})
  unfolding open_file
  do_get fs request_info = open_file fs (local_path request_info.path)
