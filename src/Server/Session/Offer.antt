-- ===== src/Server/Session/Offer.antt =====
-- server/src/session.rs, accept_offer: one offer from the request to the answer. The WebRTC stack is
-- the webrtc crate's: what it answers is a parameter.
pub mod Answer
pub mod Accept
pub mod Refused
use vmscren_share.Prelude.{
  ℕ, suc, ◌≡◌, Bool, true, false, not, ◌==◌, if◌then◌else◌, Option, none, some, List, [], ◌∷◌, ◌++◌,
}
use vmscren_share.Prelude.Result.{Result, ok, err, ok_or, ◌>>=◌, ◌>>◌}
use vmscren_share.Prelude.Text.{Text, codes}
use vmscren_share.Proto.Sdp.{has_media, candidate_count, rewrite_host_candidates}
use vmscren_share.Server.Input.{InputSink}
use vmscren_share.Server.Session.{
  SessionManager, allocate_port, allocate_session_id, public_ip_of, replace_previous, publish,
}

-- The texts of internal errors, which only a log and the reply show, are shorter than the source's.
pub data SessionError : Type 0 where
  bad_offer : Text → SessionError
  internal : Text → SessionError

-- `RTCPeerConnectionState`.
pub data ConnectionState : Type 0 where
  unspecified new connecting connected disconnected failed closed : ConnectionState

-- `RTCIceGatheringState`.
pub data GatheringState : Type 0 where
  unspecified new gathering complete : GatheringState

-- `enum PcEvent`. A data channel is named by its label.
pub data PcEvent : Type 0 where
  connection : ConnectionState → PcEvent
  gathering_state : GatheringState → PcEvent
  data_channel : Text → PcEvent

-- What the stack answers to the calls of one offer, in their order. `received` is what the handler
-- sends until the deadline: `none` says that the driver stopped.
pub record Stack : Type 0 where
  pub create : ℕ → Result Text (Unit {0})
  pub parse_offer : Text → Result Text (Unit {0})
  pub set_remote_description : Text → Result Text (Unit {0})
  pub create_answer : Result Text (Unit {0})
  pub set_local_description : Result Text (Unit {0})
  pub received : List (Option PcEvent)
  pub local_description : Option Text
  pub detected : Result Text Text

-- `map_err`.
abbrev pub map_err {ℓ κ μ} :
    {A : Type ℓ} {E : Type κ} {F : Type μ} → (E → F) → Result E A → Result F A
map_err f (ok a) = ok a
map_err f (err e) = err (f e)

-- The loop that waits for the candidates: it ends with the events that the session has yet to see.
-- The list ends where the deadline passes.
unfoldable pub gather : List PcEvent → List (Option PcEvent) → Result SessionError (List PcEvent)
gather pending [] = ok pending
gather pending (some (gathering_state complete) ∷ rest) = ok pending
gather pending (some (gathering_state unspecified) ∷ rest) = gather pending rest
gather pending (some (gathering_state new) ∷ rest) = gather pending rest
gather pending (some (gathering_state gathering) ∷ rest) = gather pending rest
gather pending (some (connection state) ∷ rest) = gather (pending ++ connection state ∷ []) rest
gather pending (some (data_channel label) ∷ rest) = gather (pending ++ data_channel label ∷ []) rest
gather pending (none ∷ rest) =
    err (internal (codes "peer connection driver stopped during gathering"))

-- From the peer connection to its local description, with the events that arrived meanwhile.
unfoldable pub negotiate : Stack → ℕ → Text → Result SessionError (List PcEvent × Text)
unfolding gather
negotiate stack port offer_sdp = do
  map_err internal (stack.create port)
  map_err (λ e. bad_offer (codes "unparseable SDP: " ++ e)) (stack.parse_offer offer_sdp)
  map_err (λ e. bad_offer (codes "set_remote_description: " ++ e))
      (stack.set_remote_description offer_sdp)
  map_err internal stack.create_answer
  map_err internal stack.set_local_description
  pending ← gather [] stack.received
  sdp ← ok_or stack.local_description (internal (codes "no local description after create_answer"))
  ok (pending, sdp)

-- The answer for the client: a description with no candidate is an error.
unfoldable pub finish_answer : Option Text → Text → Result SessionError Text
finish_answer public_ip sdp =
    if candidate_count sdp == 0
    then err (internal (codes "no ICE candidates gathered"))
    else elim public_ip [ some ip ↦ ok (rewrite_host_candidates sdp ip) | none ↦ ok sdp ]

-- An offer that the stack can be asked about.
unfoldable pub check_offer : Text → Result SessionError (Unit {0})
check_offer offer_sdp =
    if not (has_media offer_sdp (codes "video"))
    then err (bad_offer (codes "offer has no video media section"))
    else if not (has_media offer_sdp (codes "application"))
    then err (bad_offer (codes "offer has no data channel (application) media section"))
    else ok tt

-- What an accepted offer gives: the answer, and what the session's task starts from.
pub record Accepted : Type 0 where
  pub session_id : ℕ
  pub port : ℕ
  pub answer : Text
  pub pending : List PcEvent

-- From the stack's description to the answer.
abbrev pub answered : ℕ → ℕ → Option Text → List PcEvent × Text → Result SessionError Accepted
answered session_id port public_ip (pending, sdp) = do
  answer ← finish_answer public_ip sdp
  ok (record { session_id = session_id; port = port; answer = answer; pending = pending })

unfoldable pub answer_offer : Stack → Text → ℕ → ℕ → Option Text → Result SessionError Accepted
unfolding negotiate finish_answer
answer_offer stack offer_sdp session_id port public_ip =
    negotiate stack port offer_sdp >>= answered session_id port public_ip

module _ (input : InputSink) where
  -- The id, the port and the public address that an offer goes on with.
  unfoldable pub prepare :
      Stack → SessionManager input → SessionManager input × (ℕ × (ℕ × Option Text))
  unfolding replace_previous allocate_session_id allocate_port public_ip_of
  prepare stack m =
      let replaced = replace_previous input m in
      let (m1, session_id) = allocate_session_id input replaced in
      let (m2, port) = allocate_port input m1 in
      let (m3, public_ip) = public_ip_of input m2 stack.detected in
      (m3, (session_id, (port, public_ip)))

  -- The rest of `accept_offer`, once the previous client is gone.
  unfoldable pub conclude :
      SessionManager input
      → Result SessionError Accepted
      → SessionManager input × Result SessionError Accepted
  unfolding publish
  conclude m (ok a) = (publish input m a.session_id, ok a)
  conclude m (err e) = (m, err e)

  -- The `return`s of the checks, or all that comes after them.
  unfoldable pub checked :
      Stack
      → SessionManager input
      → Text
      → Result SessionError (Unit {0})
      → SessionManager input × Result SessionError Accepted
  unfolding prepare answer_offer conclude
  checked stack m offer_sdp (err e) = (m, err e)
  checked stack m offer_sdp (ok _) =
      let (m', (session_id, (port, public_ip))) = prepare stack m in
      conclude m' (answer_offer stack offer_sdp session_id port public_ip)

  unfoldable pub accept_offer :
      Stack → SessionManager input → Text → SessionManager input × Result SessionError Accepted
  unfolding check_offer checked
  accept_offer stack m offer_sdp = checked stack m offer_sdp (check_offer offer_sdp)
