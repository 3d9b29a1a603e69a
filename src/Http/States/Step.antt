-- ===== src/Http/States/Step.antt =====
-- The steps of `HttpInitState::onReceive` on a buffer that is known to be made of parts.
use cppsocks.Base.{ℕ, zero, suc, ◌-◌, ◌<◌, not, none, List, [], ◌∷◌, ◌++◌}
use cppsocks.Base.{
  length, replicate, length-append, append_assoc, ◌≡◌, refl, sym, ap, ap₂, ◌∙◌, arith, lt→ltb,
  le→ltb,
}
use cppsocks.Base.Bytes.{codes, load_n, store, store-append, text_eq}
use cppsocks.Base.Copies.{load_n-append, store_n-append}
use cppsocks.Base.Text.{Text}
use cppsocks.Base.Outcome.{ok}
use cppsocks.Tcp.Connection.{Holder, Net}
use cppsocks.Http.Request.{RequestInfo, HeadersMap}
use cppsocks.Http.Request.Headers.{header_text}
use cppsocks.Http.Request.Parse.{request_text}
use cppsocks.Http.States.{
  HandlersOn, HttpSessionOn, init_state, recv_size, incomplete, not_terminator, init_body,
  on_stored,
}

abbrev pub terminator : Text
terminator = codes "\r\n\r\n"

-- A session that waits for the rest of its request.
abbrev pub waiting : {S : Type 0} → List ℕ → ℕ → S → RequestInfo → HttpSessionOn S
waiting recv_buf num_recv w info = record {
  world = w;
  request_info = info;
  cur_state = init_state recv_buf num_recv;
  next_state = none;
}

module _ {S : Type 0} ⦃holder : Holder S⦄ (net : Net) (handlers : HandlersOn S)
    (received old free chunk after : List ℕ) where
  pub init_body-on_stored :
      (w : S) (info : RequestInfo)
      → length chunk ≡ length old
      → init_body net handlers
          (received ++ (old ++ free))
          (length received)
          (chunk ++ after)
          (length chunk)
          (waiting (received ++ (old ++ free)) (length received) w info)
        ≡ on_stored net handlers
            ((received ++ chunk) ++ free)
            (length (received ++ chunk))
            (waiting ((received ++ chunk) ++ free) (length (received ++ chunk)) w info)
  unfolding init_body
  init_body-on_stored w info e =
      rw (load_n-append [] chunk after, store_n-append received old free chunk e)
        (ap₂ (λ data_ n. on_stored net handlers data_ n (waiting data_ n w info))
          (sym (append_assoc received chunk free)) (sym (length-append received chunk)))

pub incomplete-not :
    (head tail free : List ℕ)
    → length tail ≡ 4
    → length (head ++ tail) < recv_size
    → incomplete ((head ++ tail) ++ free) (length (head ++ tail))
      ≡ ok (not (text_eq tail terminator))
unfolding incomplete not_terminator
incomplete-not head tail free four small = rw (
  lt→ltb (length (head ++ tail)) recv_size small,
  le→ltb (length (head ++ tail)) 4 (omega (arith, length-append head tail)),
  last_four,
)
  where
    last_four : load_n ((head ++ tail) ++ free) (length (head ++ tail) - 4) 4 ≡ ok tail
    last_four =
        ap₂ (λ i n. load_n ((head ++ tail) ++ free) i n) (omega (arith, length-append head tail))
          (sym four)
        ∙ ap (λ m. load_n m (length head) (length tail)) (append_assoc head tail free)
        ∙ load_n-append head tail free

replicate-suc : (k : ℕ) → replicate {A = ℕ} (suc k) 0 ≡ replicate k 0 ++ (0 ∷ [])
replicate-suc zero = refl
replicate-suc (suc k) = ap (◌∷◌ 0) (replicate-suc k)

-- The NUL behind the last byte of a buffer that ends in zeros changes nothing.
pub store_last_zero :
    (pre : List ℕ) (k i : ℕ)
    → i ≡ length (pre ++ replicate k 0)
    → store (pre ++ replicate (suc k) 0) i 0 ≡ ok (pre ++ replicate (suc k) 0)
store_last_zero pre k i e =
    ap (λ m. store m i 0) regroup
    ∙ store-append (pre ++ replicate k 0) 0 0 [] i (sym e)
    ∙ ap ok (sym regroup)
  where
    regroup : pre ++ replicate (suc k) 0 ≡ (pre ++ replicate k 0) ++ (0 ∷ [])
    regroup = ap (◌++◌ pre) (replicate-suc k) ∙ sym (append_assoc pre (replicate k 0) (0 ∷ []))

header_text_ends :
    (hs : HeadersMap) (pre : Text)
    → (head : Text) × (pre ++ (b'\r' ∷ b'\n' ∷ header_text hs) ≡ head ++ terminator)
header_text_ends [] pre = (pre, refl)
header_text_ends ((k, v) ∷ hs) pre =
    let (head, e) = header_text_ends hs (pre ++ (b'\r' ∷ b'\n' ∷ (k ++ (b':' ∷ b' ' ∷ v)))) in
    (head, regroup ∙ e)
  where
    regroup :
        pre ++ (b'\r' ∷ b'\n' ∷ header_text ((k, v) ∷ hs))
        ≡ (pre ++ (b'\r' ∷ b'\n' ∷ (k ++ (b':' ∷ b' ' ∷ v)))) ++ (b'\r' ∷ b'\n' ∷ header_text hs)
    regroup = simp append_assoc

-- A request ends in an empty line.
pub request_text_ends :
    (path query version : Text) (hs : HeadersMap)
    → (head : Text) × (request_text path query version hs ≡ head ++ terminator)
request_text_ends path query version hs =
    let (head, e) = header_text_ends hs (codes "GET " ++ (path ++ (query ++ (b' ' ∷ version)))) in
    (head, regroup ∙ e)
  where
    regroup :
        request_text path query version hs
        ≡ (codes "GET " ++ (path ++ (query ++ (b' ' ∷ version))))
          ++ (b'\r' ∷ b'\n' ∷ header_text hs)
    regroup = simp append_assoc
