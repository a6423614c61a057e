-- ===== src/Proto/Message/Framing.antt =====
-- The frames of the control channel: how long an encoding is, and what `decode` answers on a frame
-- that is cut short, carries more bytes, or was not written by `encode`.
use vmscren_share.Prelude.{ℕ, suc, ◌≤◌, ◌<◌, ◌≡◌, ap, List, ◌∷◌, ◌++◌, length, length-append, arith}
use vmscren_share.Prelude.Result.{err}
use vmscren_share.Proto.Message.{
  ControlMessage, hello, key, button, wheel, set_bitrate, release_all, trailing, truncated, encode,
  decode, max_encoded_len,
}

-- An encoding has at least one byte and at most `MAX_ENCODED_LEN`.
pub length-encode :
    (m : ControlMessage) → (1 ≤ length (encode m)) × (length (encode m) ≤ max_encoded_len)
unfolding encode
length-encode (hello version) = omega arith
length-encode (key code pressed) = omega arith
length-encode (button b pressed) = omega arith
length-encode (wheel horizontal vertical) = omega arith
length-encode (set_bitrate kbps) = omega arith
length-encode release_all = omega arith

-- Bytes after a whole message are refused, and counted.
pub decode-append_trailing :
    (m : ControlMessage) (x : ℕ) (xs : List ℕ)
    → decode (encode m ++ x ∷ xs) ≡ err (trailing (suc (length xs)))
unfolding encode decode
decode-append_trailing (hello version) x xs = ground arith
decode-append_trailing (key code pressed) x xs = ground arith
decode-append_trailing (button b pressed) x xs = ground arith
decode-append_trailing (wheel horizontal vertical) x xs = ground arith
decode-append_trailing (set_bitrate kbps) x xs = ground arith
decode-append_trailing release_all x xs = ground arith

-- The front of an encoding is shorter than the whole.
shorter :
    (m : ControlMessage) (tag x : ℕ) (front back : List ℕ)
    → encode m ≡ (tag ∷ front) ++ x ∷ back
    → suc (length front) < length (encode m)
shorter m tag x front back e =
    omega (arith, ap (length {0}) e, length-append (tag ∷ front) (x ∷ back))

-- A message that is cut short after its tag is refused with both lengths.
pub decode_truncated :
    (m : ControlMessage) (tag x : ℕ) (front back : List ℕ)
    → encode m ≡ (tag ∷ front) ++ x ∷ back
    → decode (tag ∷ front) ≡ err (truncated (length (encode m)) (length (tag ∷ front)))
unfolding encode decode
decode_truncated (hello version) tag x front back e =
    ground (arith, shorter (hello version) tag x front back e)
decode_truncated m tag x front back e = ground (arith, shorter m tag x front back e)
