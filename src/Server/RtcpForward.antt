-- ===== src/Server/RtcpForward.antt =====
-- server/src/rtcp_forward.rs: the interceptor that hands keyframe requests to the application.
pub mod Delivered
use vmscren_share.Prelude.{
  ℕ, Bool, true, false, if◌then◌else◌, Option, none, some, List, [], ◌∷◌, ◌++◌,
}
use vmscren_share.Prelude.Text.{keep, is_empty}

-- The RTCP packets of the rtc crate that are told apart; any other has a number for its content.
pub data RtcpPacket : Type 0 where
  picture_loss_indication full_intra_request : (ssrc : ℕ) → RtcpPacket
  other : ℕ → RtcpPacket

pub data Packet : Type 0 where
  rtp : List ℕ → Packet
  rtcp : List RtcpPacket → Packet

-- A message on its way through the interceptors, and whether it has `DeliverToApplication`.
pub record TaggedPacket : Type 0 where
  pub packet : Packet
  pub deliver_to_application : Bool

pub record KeyframeRequestForwarder : Type 0 where
  pub read_queue : List TaggedPacket
  pub write_queue : List TaggedPacket

abbrev pub new : KeyframeRequestForwarder
new = record { read_queue = []; write_queue = [] }

unfoldable pub is_keyframe_request : RtcpPacket → Bool
is_keyframe_request (picture_loss_indication ssrc) = true
is_keyframe_request (full_intra_request ssrc) = true
is_keyframe_request (other content) = false

-- The message that is queued for the next reader, if there is one.
unfoldable pub filtered : TaggedPacket → Option TaggedPacket
unfolding keep is_keyframe_request
filtered msg = elim msg.packet [
  | rtcp packets ↦
      let requests = keep is_keyframe_request packets in
      if is_empty requests
      then none
      else some (record { packet = rtcp requests; deliver_to_application = true })
  | rtp payload ↦ some msg
]

-- `push_back` of a message that is not dropped.
abbrev pub enqueue : KeyframeRequestForwarder → Option TaggedPacket → KeyframeRequestForwarder
enqueue f none = f
enqueue f (some m) = record f { read_queue = f.read_queue ++ m ∷ [] }

unfoldable pub handle_read : KeyframeRequestForwarder → TaggedPacket → KeyframeRequestForwarder
unfolding filtered
handle_read f msg = enqueue f (filtered msg)

-- `pop_front`.
abbrev pub pop_front : List TaggedPacket → List TaggedPacket × Option TaggedPacket
pop_front [] = ([], none)
pop_front (m ∷ ms) = (ms, some m)

unfoldable pub poll_read : KeyframeRequestForwarder → KeyframeRequestForwarder × Option TaggedPacket
poll_read f = let (rest, m) = pop_front f.read_queue in (record f { read_queue = rest }, m)

unfoldable pub handle_write : KeyframeRequestForwarder → TaggedPacket → KeyframeRequestForwarder
handle_write f msg = record f { write_queue = f.write_queue ++ msg ∷ [] }

unfoldable pub poll_write :
    KeyframeRequestForwarder → KeyframeRequestForwarder × Option TaggedPacket
poll_write f = let (rest, m) = pop_front f.write_queue in (record f { write_queue = rest }, m)
