-- ===== src/Server/Tests/RtcpForward.antt =====
-- The forwarder of keyframe requests on concrete messages.
use vmscren_share.Prelude.{◌≡◌, refl, true, false, List, [], ◌∷◌, ◌++◌}
use vmscren_share.Server.RtcpForward.{
  TaggedPacket, picture_loss_indication, other, rtp, rtcp, new, handle_read, poll_read,
  handle_write,
}
use vmscren_share.Server.RtcpForward.Delivered.{
  Event, arrives, leaves, is_read, read_by, after, read_by-expected,
}

abbrev report : TaggedPacket
report = record { packet = rtcp (other 1 ∷ []); deliver_to_application = false }

abbrev mixed : TaggedPacket
mixed = record {
  packet = rtcp (other 1 ∷ picture_loss_indication 7 ∷ []);
  deliver_to_application = false;
}

abbrev media : TaggedPacket
media = record { packet = rtp (1 ∷ 2 ∷ []); deliver_to_application = false }

abbrev request : TaggedPacket
request = record { packet = rtcp (picture_loss_indication 7 ∷ []); deliver_to_application = true }

abbrev events : List Event
events = arrives report ∷ arrives mixed ∷ leaves media ∷ arrives media ∷ is_read ∷ []

reads : (read_by new events ≡ request ∷ []) × ((after new events).read_queue ≡ media ∷ [])
unfolding handle_read poll_read handle_write
reads = (refl, refl)

read_by-expected_example :
    read_by new events ++ (after new events).read_queue ≡ request ∷ media ∷ []
read_by-expected_example = read_by-expected new events
