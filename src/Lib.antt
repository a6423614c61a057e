-- ===== src/Lib.antt =====
-- A remote desktop for a virtual machine: a server that captures the screen, encodes it and sends it
-- over WebRTC, and that injects the input it receives; a client that shows the pictures and sends the
-- input; and a crate of what both share.
--
-- How the parts interact. A client posts an offer to the server's signalling endpoint. The session
-- manager (server/src/session.rs) replaces the client that was there, lets the WebRTC stack negotiate,
-- rewrites the host candidates of the answer to the public address (proto/src/sdp.rs) and makes the new
-- session the active one. The session's tasks read the events of its connection and the messages of its
-- two data channels, which carry the encodings of proto/src/message.rs; input goes to the sink of
-- server/src/input. The pipeline (server/src/pipeline.rs) converts the captured pictures
-- (server/src/convert.rs), encodes them (server/src/encoder) and hands the frames to the sink that the
-- active session has installed in the shared state; a session writes them to its video track. The client
-- (client/src/net.rs) makes the offer, reads the track, and hands its access units to the decode thread
-- (client/src/decoder), which publishes pictures for the window (client/src/app.rs); the window's events
-- become commands, which the network loop encodes for the two data channels.
--
-- Which file models which part.
--   Proto/KeyCode        proto/src/keycode.rs: KeyCode, ALL, as_u16, from_u16
--   Proto/MouseButton    proto/src/message.rs: MouseButton, from_u8
--   Proto/Message        proto/src/message.rs: ControlMessage, encode, decode, DecodeError
--   Proto/MouseMove      proto/src/message.rs: MouseMove, encode, decode, from_video_position
--   Proto/Sdp            proto/src/sdp.rs: has_media, candidate_count, parse_candidate,
--                        with_address, host_candidate_addresses, rewrite_host_candidates
--   Proto/Signalling     proto/src/signalling.rs: the descriptions of an offer and an answer
--   Server/Keymap        server/src/input/keymap.rs: to_evdev, button_to_evdev
--   Server/Uinput        server/src/input/uinput.rs: UinputSink, its operations, handle, release_all
--   Server/Input         server/src/input/mod.rs: InputSink, LogInput
--   Server/Config        server/src/config.rs: Config, its defaults, validate
--   Server/Shared        server/src/pipeline.rs: Shared
--   Server/Session       server/src/session.rs: SessionManager, allocate_port, allocate_session_id,
--                        public_ip, release_input, and the parts of accept_offer that change them
--   Server/Session/Offer   accept_offer, from the checks to the answer
--   Server/Session/Events  run_session and read_data_channel, an event at a time, and the teardown
--   Server/Session/Steps   the tasks side by side: a step is one access to what they share
--   Server/Session/Frames  write_frames
--   Server/Signalling    server/src/signalling.rs: offer, with the status of its errors
--   Server/Capture       server/src/capture.rs: map_framebuffer, FrameSource::capture
--   Server/Capture/Locate  find_card, locate_display, plane_type, wait_for_display
--   Server/Convert       server/src/convert.rs: I420Frame, xrgb_to_i420, xrgb_to_rgb8
--   Server/Encoder       server/src/encoder/mod.rs, server/src/encoder/openh264.rs:
--                        EncoderSettings, set_bitrate, the checks of encode; Encoder/Encode has
--                        encode, threads and the checks of new
--   Server/Pipeline      server/src/pipeline.rs: the body of encode_loop
--   Server/Pipeline/CaptureLoop  the loop of capture_loop
--   Server/RtcpForward   server/src/rtcp_forward.rs: KeyframeRequestForwarder
--   Client/Messages      client/src/net.rs, client/src/app.rs: UiCommand, UserEvent
--   Client/Keymap        client/src/keymap.rs: to_proto, button_to_proto
--   Client/View          client/src/app.rs: RgbFrame, SharedView
--   Client/Blit          client/src/app.rs: blit
--   Client/App           client/src/app.rs: App, its keys, buttons and wheel; App/Window has the
--                        handlers of winit's events, redraw, video_rect and fit_aspect
--   Client/Net           client/src/net.rs: the loop of run, its rate limit and its mouse moves;
--                        Net/Track has read_track, and Net/Offer has exchange_offer
--   Client/Decoder       client/src/decoder/mod.rs, client/src/decoder/scaler.rs: the decode thread and
--                        the scaler
--   Client/Decoder/Ffmpeg  client/src/decoder/ffmpeg.rs: open_decoder, get_format, decode
--   Prelude              what they share: numbers, lists, results, bytes, texts and sets
--   Proto/Tests, Server/Tests, Client/Tests   runs on concrete input
--
-- State and operations. A struct is a record and an operation returns the new record, with a Result of
-- Prelude/Result where the source returns one. A function that panics returns an Option. Integers are
-- natural numbers, with the wrap-around and the saturation of the source written out; i16 and i32 are
-- the integers of Prelude/Int. A text is the list of its code points. A HashSet is a list in no order.
-- A peer connection, and the frame sender of a session, are named by the id of the session, of which
-- every offer that gets that far has one.
--
-- Code outside the repository is a parameter. The evdev devices are a record with what emit is
-- documented to do (Server/Uinput). The WebRTC stack is a record of its answers to the calls of one
-- offer (Server/Session/Offer); its events are a list, which ends at the deadline or with the
-- connection. The encoder library answers each call (Server/Encoder, Server/Pipeline), DRM is a record
-- of what it answers at the moment (Drm in Server/Capture, Answers in Server/Capture/Locate), and the
-- hash of a picture is a function. FFmpeg's functions and swscale's are records of their answers
-- (Client/Decoder), serde's JSON and the HTTP request are functions (Client/Net/Offer), and
-- floating-point arithmetic is the record Floats of Prelude/Floats. The metadata service answers an
-- address or an error. No hypothesis is made about these answers but where a statement names it, and
-- that a mapping has the length that was asked for.
--
-- The tasks of the server run on several threads. Server/Session/Steps takes them apart into single
-- accesses; Server/Session/AsSteps shows the operations as runs of these. Server/Session/Offer and
-- Server/Session/Events have one task alone, as it runs when no other interrupts it.
--
-- Bounds. The counter of the session ids is a natural number, which the u64 of the source holds. No
-- definition runs on fuel: every loop is structural recursion on its input, on the events
-- that it reads, or on the number of rows of a picture.
--
-- Not modelled: the sleeps that pace the loops, the calls that open a DRM node and read its driver and
-- connectors, the task that polls a track for keyframe requests, the parameters of the encoder and the
-- splitting of its bytes in tests, serving HTTP and its shutdown, the metadata request and its JSON,
-- the set-up of the client's peer connection, which is constants for the WebRTC crate, the title of
-- the window with its timer, setup, doctor, PNG output and the command lines, which are calls of the
-- system and text. Log lines are left out everywhere, and the texts of internal errors of an offer are
-- shortened.
pub mod Prelude
pub mod Proto
pub mod Server
pub mod Client
