-- ===== src/Http/Files/Access.antt =====
-- Which files `HttpFileHandler::do_GET` opens, and what it answers otherwise.
use cppsocks.Base.{none, Option-cases, inl, inr, ◌∷◌}
use cppsocks.Base.{ap₂, ◌≡◌, ◌≢◌}
use cppsocks.Base.Bytes.{codes}
use cppsocks.Base.Text.{Text, find_text}
use cppsocks.Tcp.Connection.{Net, World}
use cppsocks.Http.Request.{RequestInfo}
use cppsocks.Http.Response.{http_403, http_404}
use cppsocks.Http.Files.{FileSystem, local_path, answer_file, open_file, do_get}

-- A path with `..` in it is answered by 403.
pub do_get_forbidden :
    (net : Net) (fs : FileSystem) (request_info : RequestInfo) (w : World)
    → find_text (codes "..") (local_path request_info.path) ≢ none
    → do_get net fs request_info w ≡ http_403 net w
unfolding do_get open_file
do_get_forbidden net fs request_info w h =
    elim (Option-cases (find_text (codes "..") (local_path request_info.path))) [
      | inl safe ↦ absurd (h safe)
      | inr (pos, e) ↦ rw (e, open_file)
    ]

-- Without `..` in its path, a file that cannot be opened is answered by 404.
pub do_get_not_found :
    (net : Net) (fs : FileSystem) (request_info : RequestInfo) (w : World)
    → find_text (codes "..") (local_path request_info.path) ≡ none
    → fs.contents (local_path request_info.path) ≡ none
    → do_get net fs request_info w ≡ http_404 net w
unfolding do_get open_file
do_get_not_found net fs request_info w safe missing = rw (safe, open_file, missing)

-- Two file systems are alike on a set of paths.
abbrev pub Alike : (Text → Type 0) → FileSystem → FileSystem → Type 0
Alike P fs gs =
    (path : Text)
    → P path
    → (fs.contents path ≡ gs.contents path) × (fs.file_size path ≡ gs.file_size path)

-- Two file systems that agree on all paths without `..` get the same response to every request.
pub do_get-Alike :
    (net : Net) (fs gs : FileSystem) (request_info : RequestInfo) (w : World)
    → Alike (λ path. find_text (codes "..") path ≡ none) fs gs
    → do_get net fs request_info w ≡ do_get net gs request_info w
unfolding do_get open_file
do_get-Alike net fs gs request_info w alike =
    elim (Option-cases (find_text (codes "..") (local_path request_info.path))) [
      | inl safe ↦
          rw (safe, open_file)
            (ap₂ (λ c n. answer_file net c n w) (alike _ safe).0 (alike _ safe).1)
      | inr (pos, e) ↦ rw (e, open_file)
    ]

-- A request for `/` followed by an absolute path opens that path: one slash is taken off, and
-- what is left goes to the file system as it is.
pub local_path_absolute :
    (net : Net) (fs : FileSystem) (request_info : RequestInfo) (path : Text) (w : World)
    → request_info.path ≡ b'/' ∷ b'/' ∷ path
    → (local_path request_info.path ≡ b'/' ∷ path)
      × (do_get net fs request_info w ≡ open_file net fs (b'/' ∷ path) w)
unfolding do_get local_path
local_path_absolute net fs request_info path w e = (rw e, rw e)
