-- ===== src/Push/WsServer/Client.antt =====
-- What clients of the WebSocket push server do, and what the manager makes of it.
use cppsocks.Base.{Bool, false, ℕ, ◌^◌, ◌≤◌, ◌<◌, true, some, List, [], ◌∷◌, ◌++◌, length, All, ◌≡◌}
use cppsocks.Base.Bytes.{IsByte, IsText, codes}
use cppsocks.Base.Text.{Text}
use cppsocks.Base.Effect.{M, return, ◌>>◌}
use cppsocks.Frame.{opcode_text, opcode_binary}
use cppsocks.Frame.Wire.{IsKey, plain_frame}
use cppsocks.Tcp.Connection.{Net, World}
use cppsocks.Tcp.Worker.{max_size}
use cppsocks.Http.Request.{HeadersMap, find, is_ws_request, max_path_len}
use cppsocks.Http.Request.Parse.{request_text, headers_of, IsRequest}
use cppsocks.Http.Response.{put}
use cppsocks.Http.Ws.{Crypto, send_text, send_data}
use cppsocks.Http.Ws.Receive.{Kind, text, binary}
use cppsocks.Http.States.{recv_size}
use cppsocks.Http.States.Session.{Unfinished}
use cppsocks.Http.Server.Echo.{accepting, Message, frame_of}
use cppsocks.Push.Registry.Changes.{joins, leaves}
use cppsocks.Push.Delivery.Histories.{Act, calls, receives, Wiring}
use cppsocks.Push.WsServer.{Call, chunk, disconnect, push}

-- A request for an upgrade, with the 24 characters of its key and what follows them.
pub record Upgrade : Type 0 where
  pub path : Text
  pub query : Text
  pub version : Text
  pub headers : HeadersMap
  pub key : Text
  pub key_rest : Text

abbrev pub upgrade_text : Upgrade → Text
upgrade_text u = request_text u.path u.query u.version u.headers

-- A well-formed one that fits in the buffers, and whose answer fits in what is followed of a
-- socket.
pub record IsUpgrade (room : ℕ) (crypto : Crypto) (u : Upgrade) : Type 0 where
  pub well : IsRequest u.path u.query u.version u.headers
  pub short_path : length u.path < max_path_len
  pub fits : length (upgrade_text u) < recv_size
  pub wanted : is_ws_request (headers_of [] u.headers) ≡ true
  pub found :
      find (codes "Sec-WebSocket-Key") (headers_of [] u.headers) ≡ some (u.key ++ u.key_rest)
  pub long : length u.key ≡ 24
  pub answer_fits : length (accepting crypto u.key) ≤ room

-- Part of a request, its last part, a message in one frame, each with the memory behind it, and
-- the end.
pub data Deed : Type 0 where
  part : List ℕ → List ℕ → Deed
  asks : Upgrade → List ℕ → List ℕ → Deed
  says : Message → List ℕ → Deed
  goes : Deed

pub data Event : Type 0 where
  does : ℕ → Deed → Event
  pushed : List ℕ → Event

abbrev pub deed_call : ℕ → Deed → Call
deed_call i (part bytes after) = chunk i bytes after
deed_call i (asks u last after) = chunk i last after
deed_call i (says m after) = chunk i (frame_of m) after
deed_call i goes = disconnect i

abbrev pub call_of : Event → Call
call_of (does i d) = deed_call i d
call_of (pushed words) = push words

-- How far a client is: so much of its request has arrived, it exchanges messages, or it is gone.
pub data Phase : Type 0 where
  asking : List ℕ → Phase
  talking : Phase
  gone : Phase

abbrev pub next_phase : Phase → Deed → Phase
next_phase (asking received) (part bytes after) = asking (received ++ bytes)
next_phase talking (part bytes after) = talking
next_phase gone (part bytes after) = gone
next_phase phase (asks u last after) = talking
next_phase phase (says m after) = phase
next_phase phase goes = gone

abbrev pub talks : Phase → Bool
talks (asking received) = false
talks talking = true
talks gone = false

-- A text message has no NUL.
abbrev pub NulFree : Kind → List ℕ → Type 0
NulFree text payload = IsText payload
NulFree binary payload = Unit {0}

-- What a server receives of a client: a key, or a message.
pub data Asked : Type 0 where
  handshake : Text → Asked
  message : Kind → List ℕ → Asked

module _ (room : ℕ) (crypto : Crypto) where
  abbrev pub IsAsked : Asked → Type 0
  IsAsked (handshake key) = length (accepting crypto key) ≤ room
  IsAsked (message kind payload) =
      (length payload < 2 ^ 16)
      × (length (plain_frame true opcode_binary payload) ≤ room)
      × NulFree kind payload

  abbrev pub IsSaid : Message → Type 0
  IsSaid m = IsKey m.key × All IsByte m.payload × IsAsked (message m.kind m.payload)

  -- A client that has sent part of its request sends the rest of it, and is then free to send
  -- messages; it may go at any time.
  abbrev pub May : Phase → Deed → Type 0
  May (asking received) (part bytes after) =
      Unfinished received bytes × (0 < length bytes) × (length bytes ≤ max_size)
  May (asking received) (asks u last after) =
      IsUpgrade room crypto u × (received ++ last ≡ upgrade_text u)
  May (asking received) (says m after) = ⊥
  May (asking received) goes = Unit {0}
  May talking (part bytes after) = ⊥
  May talking (asks u last after) = ⊥
  May talking (says m after) = IsSaid m × (length (frame_of m) ≤ max_size)
  May talking goes = Unit {0}
  May gone d = ⊥

-- What a deed is to the manager.
abbrev pub acts_of : ℕ → Phase → Deed → List (Act Asked)
acts_of i phase (part bytes after) = []
acts_of i phase (asks u last after) = receives i (handshake u.key) ∷ calls (joins i) ∷ []
acts_of i phase (says m after) = receives i (message m.kind m.payload) ∷ []
acts_of i (asking received) goes = []
acts_of i talking goes = calls (leaves i) ∷ []
acts_of i gone goes = []

-- The answer to a key is the handshake's; the answer to a message, also to a text, is one binary
-- frame.
abbrev pub answer_to : (ℕ → Net) → Crypto → Asked → ℕ → M World (Unit {0})
answer_to nets crypto (handshake key) i = put (nets i) (accepting crypto key)
answer_to nets crypto (message text payload) i =
    send_data (nets i) (payload ++ (0 ∷ [])) (length payload) >> return tt
answer_to nets crypto (message binary payload) i =
    send_data (nets i) payload (length payload) >> return tt

abbrev pub answer_wire : Crypto → Asked → List ℕ
answer_wire crypto (handshake key) = accepting crypto key
answer_wire crypto (message kind payload) = plain_frame true opcode_binary payload

abbrev pub site_service : (ℕ → Net) → Crypto → Wiring Asked
site_service nets crypto = record {
  push_to = λ words i. send_text (nets i) (words ++ (0 ∷ [])) >> return tt;
  answer_to = answer_to nets crypto;
  push_wire = plain_frame true opcode_text;
  answer_wire = answer_wire crypto;
}
