-- ===== src/Http/Files/Tests.antt =====
-- Requests for files.
use cppsocks.Base.{none, some, [], ◌∷◌, ◌++◌, ◌≡◌, ◌≢◌, refl, arith}
use cppsocks.Base.Bytes.{codes, text_eq}
use cppsocks.Base.{if◌then◌else◌}
use cppsocks.Base.Text.{Text, find_text, starts_with}
use cppsocks.Base.Outcome.{ok}
use cppsocks.Tcp.Connection.{World}
use cppsocks.Tcp.Connection.Laws.{Sent}
use cppsocks.Tcp.Connection.Tests.{eager_net, fresh_world}
use cppsocks.Http.Request.{RequestInfo, get}
use cppsocks.Http.Response.{newline, status_text, length_text, http_403, http_404}
use cppsocks.Http.Response.Tests.{eager_net-Serves}
use cppsocks.Http.Files.{FileSystem, local_path, open_file, do_get}
use cppsocks.Http.Files.Serve.{do_get-Sent}
use cppsocks.Http.Files.Access.{
  do_get_forbidden, do_get_not_found, Alike, do_get-Alike, local_path_absolute,
}

-- One file, of three bytes.
abbrev pub one_file : FileSystem
one_file = record {
  contents = λ path. if text_eq path (codes "a") then some (7 ∷ 8 ∷ 9 ∷ []) else none;
  file_size = λ path. if text_eq path (codes "a") then some 3 else none;
}

abbrev no_file : FileSystem
no_file = record { contents = λ path. none; file_size = λ path. none }

abbrev request_for : Text → RequestInfo
request_for path = record { request_type = get; path = path; headers = [] }

pub safe_path : find_text (codes "..") (local_path (codes "/a")) ≡ none
unfolding find_text starts_with local_path
safe_path = refl

do_get-Sent_example :
    (w' : World) × (do_get eager_net one_file (request_for (codes "/a")) fresh_world ≡ (ok tt, w'))
    × Sent fresh_world
        ((status_text (codes "200 OK") ++ (length_text (some 3) ++ newline)) ++ (7 ∷ 8 ∷ 9 ∷ []))
        w'
unfolding local_path text_eq
do_get-Sent_example =
    do_get-Sent eager_net 10000 eager_net-Serves (omega arith) one_file (request_for (codes "/a"))
      (7 ∷ 8 ∷ 9 ∷ []) 3 fresh_world safe_path refl refl (omega arith) refl

unsafe_path : find_text (codes "..") (local_path (codes "/../b")) ≢ none
unfolding find_text starts_with local_path
unsafe_path h = cc h

do_get_forbidden_example :
    do_get eager_net one_file (request_for (codes "/../b")) fresh_world
    ≡ http_403 eager_net fresh_world
do_get_forbidden_example =
    do_get_forbidden eager_net one_file (request_for (codes "/../b")) fresh_world unsafe_path

do_get_not_found_example :
    do_get eager_net no_file (request_for (codes "/a")) fresh_world ≡ http_404 eager_net fresh_world
do_get_not_found_example =
    do_get_not_found eager_net no_file (request_for (codes "/a")) fresh_world safe_path refl

-- The same, and a secret wherever there is `..` in the path.
abbrev secret_file : FileSystem
secret_file = record {
  contents = λ path. elim (find_text (codes "..") path) [
    | none ↦ one_file.contents path
    | some pos ↦ some (1 ∷ [])
  ];
  file_size = λ path. elim (find_text (codes "..") path) [
    | none ↦ one_file.file_size path
    | some pos ↦ some 1
  ];
}

one_file-Alike : Alike (λ path. find_text (codes "..") path ≡ none) one_file secret_file
one_file-Alike path h = (rw (secret_file, h), rw (secret_file, h))

do_get-Alike_example :
    do_get eager_net one_file (request_for (codes "/../b")) fresh_world
    ≡ do_get eager_net secret_file (request_for (codes "/../b")) fresh_world
do_get-Alike_example =
    do_get-Alike eager_net one_file secret_file (request_for (codes "/../b")) fresh_world
      one_file-Alike

local_path_absolute_example :
    (local_path (codes "//etc/passwd") ≡ codes "/etc/passwd")
    × (do_get eager_net one_file (request_for (codes "//etc/passwd")) fresh_world
        ≡ open_file eager_net one_file (codes "/etc/passwd") fresh_world)
local_path_absolute_example =
    local_path_absolute eager_net one_file (request_for (codes "//etc/passwd")) (codes "etc/passwd")
      fresh_world refl
