-- ===== src/Http/Files/Serve.antt =====
-- `HttpFileHandler::do_GET` on a file that can be read: the whole response.
use mathlib.Core.Path.{subst}
use cppsocks.Base.{ℕ, zero, suc, ◌^◌, ◌≤◌, ◌<◌, false, none, some, List, [], ◌∷◌, ◌++◌}
use cppsocks.Base.{
  length, take, drop, ◌≡◌, arith, ◌==◌, take_all, take-append-drop, length-take, length-drop,
}
use cppsocks.Base.Bytes.{codes}
use cppsocks.Base.Text.{find_text}
use cppsocks.Base.Outcome.{ok}
use cppsocks.Base.Effect.{return, ◌>>◌}
use cppsocks.Tcp.Connection.{Net, World}
use cppsocks.Tcp.Connection.Laws.{Sent}
use cppsocks.Tcp.Connection.Serving.{Serves}
use cppsocks.Http.Request.{RequestInfo}
use cppsocks.Http.Response.{newline, status_text, length_text, write, http_200}
use cppsocks.Http.Response.Emits.{
  Emits, Emits->>, Emits-nil, write_whole-Emits, http_200-Emits, length_text-le,
}
use cppsocks.Http.Files.{
  FileSystem, buf_size, local_path, write_chunks, serve_file, open_file, do_get,
}

module _ (net : Net) (cap : ℕ) (serves : Serves net cap) (size : ℕ) (room : size ≤ cap) where
  -- One round that reads something.
  write_chunks-more :
      (rounds : ℕ) (left : List ℕ)
      → 0 < length (take size left)
      → Emits (write_chunks net size rounds (drop size left)) (drop size left)
      → Emits (write_chunks net size (suc rounds) left) left
  unfolding write_chunks
  write_chunks-more rounds left some_read later = rw (ne-test (length (take size left)) some_read) (
      subst
        (Emits (write net chunk (length chunk) >> write_chunks net size rounds (drop size left)))
        (take-append-drop size left)
        (Emits->> (write net chunk (length chunk)) (write_chunks net size rounds (drop size left))
          chunk (drop size left)
          (write_whole-Emits net cap serves chunk (omega (arith, length-take size left))) later))
    where
      chunk : List ℕ
      chunk = take size left

      ne-test : (n : ℕ) → 0 < n → (n == 0) ≡ false
      ne-test n h = ground arith

  write_chunks-end :
      (rounds : ℕ) → take {A = ℕ} size [] ≡ [] → Emits (write_chunks net size (suc rounds) []) []
  unfolding write_chunks
  write_chunks-end rounds e = rw e (
      Emits->> (write net [] 0) (return tt) [] []
        (write_whole-Emits net cap serves [] (omega arith)) Emits-nil)

  write_chunks-Emits :
      (rounds : ℕ) (left : List ℕ)
      → 0 < size
      → length left < rounds
      → Emits (write_chunks net size rounds left) left
  write_chunks-Emits zero left pos h = absurd (omega arith)
  write_chunks-Emits (suc rounds) [] pos h =
      write_chunks-end rounds (take_all size [] (omega arith))
  write_chunks-Emits (suc rounds) (b ∷ bs) pos h =
      write_chunks-more rounds (b ∷ bs) (omega (arith, length-take size (b ∷ bs))) (
        write_chunks-Emits rounds (drop size (b ∷ bs)) pos
          (omega (arith, length-drop size (b ∷ bs))))

module _ (net : Net) (cap : ℕ) (serves : Serves net cap) (room : buf_size ≤ cap) where
  do_get-Emits :
      (fs : FileSystem) (request_info : RequestInfo) (content : List ℕ) (size : ℕ)
      → find_text (codes "..") (local_path request_info.path) ≡ none
      → fs.contents (local_path request_info.path) ≡ some content
      → fs.file_size (local_path request_info.path) ≡ some size
      → size < 2 ^ 64
      → Emits
          (do_get net fs request_info)
          ((status_text (codes "200 OK") ++ (length_text (some size) ++ newline)) ++ content)
  unfolding do_get open_file serve_file
  do_get-Emits fs request_info content size safe found sized small =
      rw (safe, open_file, found, sized)
        (Emits->> (http_200 net (some size))
          (write_chunks net buf_size (suc (length content)) content) _ content
          (http_200-Emits net cap serves (some size) (omega (arith, length_text-le size small))
            (omega arith))
          (write_chunks-Emits net cap serves buf_size room (suc (length content)) content
            (omega arith) (omega arith)))

  -- A request for a file that can be read and has a size below 2 ^ 64, on a path without `..`,
  -- on an open connection over a socket that makes progress and is followed for more than 4096
  -- rounds: `do_GET` returns, and the response is a complete header with the file's size, and
  -- behind it the file, whatever its length.
  pub do_get-Sent :
      (fs : FileSystem) (request_info : RequestInfo) (content : List ℕ) (size : ℕ) (w : World)
      → find_text (codes "..") (local_path request_info.path) ≡ none
      → fs.contents (local_path request_info.path) ≡ some content
      → fs.file_size (local_path request_info.path) ≡ some size
      → size < 2 ^ 64
      → w.closed ≡ false
      → (w' : World) × (do_get net fs request_info w ≡ (ok tt, w'))
        × Sent w
            ((status_text (codes "200 OK") ++ (length_text (some size) ++ newline)) ++ content)
            w'
  do_get-Sent fs request_info content size w safe found sized small still_open =
      do_get-Emits fs request_info content size safe found sized small w still_open
