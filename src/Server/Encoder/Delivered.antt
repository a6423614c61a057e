-- ===== src/Server/Encoder/Delivered.antt =====
-- What the encoder makes of a picture that the conversion leaves.
use vmscren_share.Prelude.{
  zero, drop, ap, ◌+◌, ◌↔◌, arith, ℕ, suc, ◌≡◌, ◌≢◌, ◌⊎◌, inl, inr, refl, sym, ◌∙◌, Bool, true,
  false, Option, none, some, List, [], ◌∷◌, ◌++◌, take, append_nil, append_assoc,
}
use vmscren_share.Prelude.Result.{Result, ok, err}
use vmscren_share.Prelude.Int.{ℤ, pos, negsuc, pos_part}
use vmscren_share.Server.Convert.{I420Frame, xrgb_to_i420}
use vmscren_share.Server.Encoder.{EncoderSettings, EncodeError, encode_failed}
use vmscren_share.Server.Encoder.Frames.{xrgb_to_i420-check_frame}
use vmscren_share.Server.Encoder.Encode.{
  FrameType, Layer, FrameInfo, Library, skip, invalid, idr, other_type, total_len, layer_bytes,
  collect_layers, is_skipped, is_idr, frame_of, output, on_encoded, check_force, encode,
}
use vmscren_share.Server.Session.Frames.{EncodedFrame}

-- The NAL units of some lengths that stand in a memory, one behind the other. A length below zero
-- counts for nothing.
abbrev pub nal_bytes : List ℤ → List ℕ → List ℕ
nal_bytes [] memory = []
nal_bytes (pos n ∷ ns) memory = take n memory ++ nal_bytes ns (drop n memory)
nal_bytes (negsuc n ∷ ns) memory = nal_bytes ns memory

abbrev pub nals_of : Option (List ℕ) → List ℤ → List ℕ
nals_of none lengths = []
nals_of (some memory) lengths = nal_bytes lengths memory

-- The NAL units of the layers, layer after layer.
abbrev pub all_nals : List Layer → List ℕ
all_nals [] = []
all_nals (l ∷ ls) = nals_of l.buffer l.nal_lengths ++ all_nals ls

abbrev pub coded : FrameInfo → List ℕ
coded info = all_nals (take (pos_part info.layer_count) info.layers)

-- What is owed for an answer of the library: all its NAL units, marked as a keyframe exactly if they
-- are an IDR picture; or no frame, if the library skipped it or gave no byte.
abbrev pub Brings : FrameInfo → ℕ → Option EncodedFrame → Type 0
Brings info pts_ms none =
    (info.frame_type ≡ skip) ⊎ ((info.frame_type ≡ invalid) ⊎ (coded info ≡ []))
Brings info pts_ms (some e) =
    ((info.frame_type ≢ skip) × (info.frame_type ≢ invalid))
    × ((e.bytes ≡ coded info)
        × ((e.bytes ≢ [])
            × (((e.keyframe ≡ true) ↔ (info.frame_type ≡ idr)) × (e.pts_ms ≡ pts_ms))))

unfoldable pub Delivers :
    (frames pts_ms : ℕ) → Result ℤ FrameInfo → Result EncodeError (ℕ × Option EncodedFrame) → Type 0
Delivers frames pts_ms (err code) r = r ≡ err encode_failed
Delivers frames pts_ms (ok info) r =
    (out : Option EncodedFrame) × ((r ≡ ok (suc frames, out)) × Brings info pts_ms out)

take-nil : (n : ℕ) → ◌≡◌ {A = List ℕ} (take n []) []
take-nil zero = refl
take-nil (suc n) = refl

take-add : (a b : ℕ) (m : List ℕ) → take (a + b) m ≡ take a m ++ take b (drop a m)
take-add zero b m = ap (λ n. take n m) (omega arith)
take-add (suc a) b [] = take-nil (suc a + b) ∙ sym (take-nil b)
take-add (suc a) b (x ∷ m) =
    let split : suc a + b ≡ suc (a + b) = omega arith in
    ap (λ n. take n (x ∷ m)) split ∙ ap (λ t. x ∷ t) (take-add a b m)

take-nal_bytes : (ns : List ℤ) (m : List ℕ) → take (total_len ns) m ≡ nal_bytes ns m
unfolding total_len
take-nal_bytes [] m = refl
take-nal_bytes (pos n ∷ ns) m =
    take-add n (total_len ns) m ∙ ap (λ t. take n m ++ t) (take-nal_bytes ns (drop n m))
take-nal_bytes (negsuc n ∷ ns) m = ap (λ k. take k m) (omega arith) ∙ take-nal_bytes ns m

layer_bytes-nals_of : (l : Layer) → layer_bytes l ≡ nals_of l.buffer l.nal_lengths
layer_bytes-nals_of l = by_buffer l.buffer l.nal_lengths
  where
    by_buffer :
        (o : Option (List ℕ)) (ns : List ℤ)
        → layer_bytes (record { buffer = o; nal_lengths = ns }) ≡ nals_of o ns
    by_buffer none ns = unfold layer_bytes in refl
    by_buffer (some m) [] = unfold layer_bytes in refl
    by_buffer (some m) (n ∷ ns) = unfold layer_bytes in take-nal_bytes (n ∷ ns) m

collect_layers-all_nals :
    (bytes : List ℕ) (ls : List Layer) → collect_layers bytes ls ≡ bytes ++ all_nals ls
unfolding collect_layers
collect_layers-all_nals bytes [] = sym (append_nil bytes)
collect_layers-all_nals bytes (l ∷ ls) =
    collect_layers-all_nals (bytes ++ layer_bytes l) ls
    ∙ append_assoc bytes (layer_bytes l) (all_nals ls)
    ∙ ap (λ t. bytes ++ (t ++ all_nals ls)) (layer_bytes-nals_of l)

-- An answer of another type than `skip` and `invalid`.
frame_of-Brings :
    (t : FrameType) (n : ℤ) (ls : List Layer) (pts_ms : ℕ) (bytes : List ℕ)
    → is_skipped t ≡ false
    → bytes ≡ all_nals (take (pos_part n) ls)
    → let info : FrameInfo = record { frame_type = t; layer_count = n; layers = ls } in
      Brings info pts_ms (frame_of info pts_ms bytes)
unfolding frame_of
frame_of-Brings t n ls pts_ms [] plain e = inr (inr (sym e))
frame_of-Brings t n ls pts_ms (b ∷ bs) plain e = (
  (λ h. not_skipped t (inl h) plain, λ h. not_skipped t (inr h) plain),
  (e, (λ h. cc, ((to_idr t, from_idr t), refl))),
)
  where
    not_skipped : (t : FrameType) → (t ≡ skip) ⊎ (t ≡ invalid) → is_skipped t ≡ false → ⊥
    not_skipped t (inl h) p = let q : is_skipped t ≡ true = ap is_skipped h in cc
    not_skipped t (inr h) p = let q : is_skipped t ≡ true = ap is_skipped h in cc

    to_idr : (t : FrameType) → is_idr t ≡ true → t ≡ idr
    to_idr idr h = refl
    to_idr skip h = cc
    to_idr invalid h = cc
    to_idr other_type h = cc

    from_idr : (t : FrameType) → t ≡ idr → is_idr t ≡ true
    from_idr t h = ap is_idr h

output-Brings : (info : FrameInfo) (pts_ms : ℕ) → Brings info pts_ms (output info pts_ms)
unfolding output
output-Brings info pts_ms = by_type info.frame_type
  where
    layers : List Layer
    layers = take (pos_part info.layer_count) info.layers

    gathered : collect_layers [] layers ≡ all_nals layers
    gathered = collect_layers-all_nals [] layers

    by_type :
        (t : FrameType)
        → Brings
            (record info { frame_type = t })
            pts_ms
            (output (record info { frame_type = t }) pts_ms)
    by_type skip = inl refl
    by_type invalid = inr (inl refl)
    by_type idr =
        frame_of-Brings idr info.layer_count info.layers pts_ms (collect_layers [] layers) refl
          gathered
    by_type other_type =
        frame_of-Brings other_type info.layer_count info.layers pts_ms (collect_layers [] layers)
          refl gathered

-- A picture that the conversion leaves is encoded by an encoder of its size: the one error is that of
-- the library, and otherwise all the NAL units of its layers are delivered, as a keyframe exactly if they
-- are an IDR picture; there is no frame only if the library skipped it or gave no byte. The library
-- has the entries that `encode` calls.
pub encode-Delivers :
    (lib : Library) (encode_frame : Bool → I420Frame → ℕ → Result ℤ FrameInfo)
    → lib.encode_frame ≡ some encode_frame
    → lib.has_force ≡ true
    → (s : EncoderSettings) (src : List ℕ) (w h pitch : ℕ) (f : I420Frame)
    → xrgb_to_i420 src w h pitch ≡ some f
    → f.width ≡ s.width
    → f.height ≡ s.height
    → (frames pts_ms : ℕ) (force_keyframe : Bool)
    → Delivers frames pts_ms
        (encode_frame force_keyframe f pts_ms)
        (encode lib s frames f pts_ms force_keyframe)
unfolding encode
encode-Delivers lib encode_frame has forces s src w h pitch f made same_width same_height frames
      pts_ms force =
    rw
      (xrgb_to_i420-check_frame s src w h pitch f made same_width same_height, has, may_force force)
      (by_answer (encode_frame force f pts_ms))
  where
    may_force : (b : Bool) → check_force lib b ≡ ok tt
    may_force true = unfold check_force in rw forces refl
    may_force false = unfold check_force in refl

    by_answer : (r : Result ℤ FrameInfo) → Delivers frames pts_ms r (on_encoded frames pts_ms r)
    by_answer (err code) = unfold Delivers on_encoded in refl
    by_answer (ok info) =
        unfold Delivers on_encoded in (output info pts_ms, (refl, output-Brings info pts_ms))
