-- ===== src/Server/RtcpForward/Delivered.antt =====
-- server/src/rtcp_forward.rs: what a reader gets, in which order.
use vmscren_share.Prelude.{
  append_nil, append_assoc, sym, ◌≡◌, refl, ap, ◌∙◌, Bool, true, if◌then◌else◌, Option, none, some,
  List, [], ◌∷◌, ◌++◌,
}
use vmscren_share.Prelude.Text.{keep, is_empty}
use vmscren_share.Server.RtcpForward.{
  RtcpPacket, picture_loss_indication, full_intra_request, other, Packet, rtp, rtcp,
  is_keyframe_request, TaggedPacket, KeyframeRequestForwarder, filtered, enqueue, handle_read,
  pop_front, poll_read, handle_write, poll_write,
}

abbrev pub cons_some : Option TaggedPacket → List TaggedPacket → List TaggedPacket
cons_some none ms = ms
cons_some (some m) ms = m ∷ ms

-- The keyframe requests among some RTCP packets: the PLIs and the FIRs.
abbrev pub requests_of : List RtcpPacket → List RtcpPacket
requests_of [] = []
requests_of (picture_loss_indication ssrc ∷ ps) = picture_loss_indication ssrc ∷ requests_of ps
requests_of (full_intra_request ssrc ∷ ps) = full_intra_request ssrc ∷ requests_of ps
requests_of (other content ∷ ps) = requests_of ps

-- The message for the application that carries some requests, before the messages after it.
abbrev pub with_requests : List RtcpPacket → List TaggedPacket → List TaggedPacket
with_requests [] ms = ms
with_requests (p ∷ ps) ms = record { packet = rtcp (p ∷ ps); deliver_to_application = true } ∷ ms

abbrev pub before_rest : Packet → Bool → List TaggedPacket → List TaggedPacket
before_rest (rtp payload) deliver ms =
    record { packet = rtp payload; deliver_to_application = deliver } ∷ ms
before_rest (rtcp packets) deliver ms = with_requests (requests_of packets) ms

-- The messages that a reader is to get, from those that arrive: media as it is, and of RTCP only the
-- keyframe requests, marked for the application.
abbrev pub expected : List TaggedPacket → List TaggedPacket
expected [] = []
expected (msg ∷ msgs) = before_rest msg.packet msg.deliver_to_application (expected msgs)

keep-requests_of : (ps : List RtcpPacket) → keep is_keyframe_request ps ≡ requests_of ps
unfolding keep is_keyframe_request
keep-requests_of [] = refl
keep-requests_of (picture_loss_indication ssrc ∷ ps) =
    ap (λ r. picture_loss_indication ssrc ∷ r) (keep-requests_of ps)
keep-requests_of (full_intra_request ssrc ∷ ps) =
    ap (λ r. full_intra_request ssrc ∷ r) (keep-requests_of ps)
keep-requests_of (other content ∷ ps) = keep-requests_of ps

filtered-expected :
    (msg : TaggedPacket) (ms : List TaggedPacket)
    → cons_some (filtered msg) ms ≡ before_rest msg.packet msg.deliver_to_application ms
unfolding filtered
filtered-expected msg ms = by_packet msg.packet msg.deliver_to_application
  where
    by_requests :
        (ps : List RtcpPacket)
        → cons_some
            (if is_empty ps
              then none
              else some (record { packet = rtcp ps; deliver_to_application = true }))
            ms
          ≡ with_requests ps ms
    by_requests [] = refl
    by_requests (p ∷ ps) = refl

    by_packet :
        (p : Packet) (deliver : Bool)
        → cons_some (filtered (record { packet = p; deliver_to_application = deliver })) ms
          ≡ before_rest p deliver ms
    by_packet (rtp payload) deliver = refl
    by_packet (rtcp packets) deliver =
        ap
          (λ (ps : List RtcpPacket).
            cons_some
              (if is_empty ps
                then none
                else some (record { packet = rtcp ps; deliver_to_application = true }))
              ms)
          (keep-requests_of packets)
        ∙ by_requests (requests_of packets)

-- What happens at the forwarder, in any order.
pub data Event : Type 0 where
  arrives : TaggedPacket → Event
  leaves : TaggedPacket → Event
  is_read is_written : Event

abbrev pub happens : KeyframeRequestForwarder → Event → KeyframeRequestForwarder
happens f (arrives msg) = handle_read f msg
happens f (leaves msg) = handle_write f msg
happens f is_read = (poll_read f).0
happens f is_written = (poll_write f).0

-- The messages that a run reads.
abbrev pub read_by : KeyframeRequestForwarder → List Event → List TaggedPacket
read_by f [] = []
read_by f (arrives msg ∷ es) = read_by (handle_read f msg) es
read_by f (leaves msg ∷ es) = read_by (handle_write f msg) es
read_by f (is_read ∷ es) = cons_some (poll_read f).1 (read_by (poll_read f).0 es)
read_by f (is_written ∷ es) = read_by (poll_write f).0 es

abbrev pub after : KeyframeRequestForwarder → List Event → KeyframeRequestForwarder
after f [] = f
after f (e ∷ es) = after (happens f e) es

-- The messages that arrive in a run.
abbrev pub arrived : List Event → List TaggedPacket
arrived [] = []
arrived (arrives msg ∷ es) = msg ∷ arrived es
arrived (leaves msg ∷ es) = arrived es
arrived (is_read ∷ es) = arrived es
arrived (is_written ∷ es) = arrived es

-- A message in the queue is one that is expected before those to come.
handle_read-expected :
    (f : KeyframeRequestForwarder) (msg : TaggedPacket) (msgs : List TaggedPacket)
    → (handle_read f msg).read_queue ++ expected msgs ≡ f.read_queue ++ expected (msg ∷ msgs)
unfolding handle_read
handle_read-expected f msg msgs =
    queued (filtered msg) ∙ ap (λ t. f.read_queue ++ t) (filtered-expected msg (expected msgs))
  where
    queued :
        (o : Option TaggedPacket)
        → (enqueue f o).read_queue ++ expected msgs ≡ f.read_queue ++ cons_some o (expected msgs)
    queued (some m) = append_assoc f.read_queue (m ∷ []) (expected msgs)
    queued none = refl

-- Whatever happens at the forwarder, in any order, what has been read and what is still queued are,
-- in order, what was queued and then the messages that arrived, where RTCP is cut down to its
-- keyframe requests, marked for the application, and dropped if it has none.
pub read_by-expected :
    (f : KeyframeRequestForwarder) (es : List Event)
    → read_by f es ++ (after f es).read_queue ≡ f.read_queue ++ expected (arrived es)
unfolding poll_read handle_write poll_write
read_by-expected f [] = sym (append_nil f.read_queue)
read_by-expected f (arrives msg ∷ es) =
    read_by-expected (handle_read f msg) es ∙ handle_read-expected f msg (arrived es)
read_by-expected f (leaves msg ∷ es) = read_by-expected (handle_write f msg) es
read_by-expected f (is_written ∷ es) = read_by-expected (poll_write f).0 es
read_by-expected f (is_read ∷ es) =
    popped f.read_queue (λ rest. read_by-expected (record f { read_queue = rest }) es)
  where
    popped :
        (q : List TaggedPacket)
        → ((rest : List TaggedPacket)
            → read_by (record f { read_queue = rest }) es
                ++ (after (record f { read_queue = rest }) es).read_queue
              ≡ rest ++ expected (arrived es))
        → cons_some (pop_front q).1 (read_by (record f { read_queue = (pop_front q).0 }) es)
            ++ (after (record f { read_queue = (pop_front q).0 }) es).read_queue
          ≡ q ++ expected (arrived es)
    popped [] ih = ih []
    popped (m ∷ ms) ih = ap (λ t. m ∷ t) (ih ms)
