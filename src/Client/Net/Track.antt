-- ===== src/Client/Net/Track.antt =====
-- client/src/net.rs, read_track: the access units of a track, from its packets to the decoder's queue.
-- The reassembly is the WebRTC stack's: a packet comes with the samples that it completes, and with
-- what the queue answers for each.
use vmscren_share.Prelude.{
  ℕ, ◌+◌, ◌≡◌, refl, sym, Bool, true, false, List, [], ◌∷◌, ◌++◌, length, arith, append_nil,
  append_assoc, ◌∙◌, ◌||◌, if◌then◌else◌, subst,
}

-- The answers of `try_send`.
pub data Answer : Type 0 where
  accepted full disconnected : Answer

pub record Sample : Type 0 where
  pub bytes : List ℕ
  pub answer : Answer

pub data TrackEvent : Type 0 where
  on_rtp_packet : (samples : List Sample) → TrackEvent
  on_ended : TrackEvent
  on_track_other : TrackEvent

-- What has gone to the decoder, in order, how many keyframes have been asked for, the number of
-- samples, and whether the task has returned.
pub record Reader : Type 0 where
  pub delivered : List (List ℕ)
  pub requests : ℕ
  pub samples : ℕ
  pub returned : Bool

abbrev pub fresh_reader : Reader
fresh_reader = record { delivered = []; requests = 0; samples = 0; returned = false }

unfoldable pub on_answer : Answer → List ℕ → Reader → Reader
on_answer accepted bytes r = record r { delivered = r.delivered ++ bytes ∷ [] }
on_answer full bytes r = record r { requests = r.requests + 1 }
on_answer disconnected bytes r = record r { returned = true }

-- `while let Some(sample) = builder.pop(now)`: a queue that nobody reads ends the task.
unfoldable pub pop_all : List Sample → Reader → Reader
unfolding on_answer
pop_all [] r = r
pop_all (s ∷ ss) r =
    let next = on_answer s.answer s.bytes (record r { samples = r.samples + 1 }) in
    let rest = pop_all ss next in if next.returned then next else rest

unfoldable pub read_track : List TrackEvent → Reader → Reader
unfolding pop_all
read_track [] r = r
read_track (on_rtp_packet ss ∷ es) r =
    let next = pop_all ss r in let rest = read_track es next in if next.returned then next else rest
read_track (on_ended ∷ es) r = r
read_track (on_track_other ∷ es) r = read_track es r

-- The access units that the packets complete, up to the end of the track.
abbrev pub completed : List TrackEvent → List Sample
completed [] = []
completed (on_rtp_packet ss ∷ es) = ss ++ completed es
completed (on_ended ∷ es) = []
completed (on_track_other ∷ es) = completed es

abbrev pub cut_after : Answer → Sample → List Sample → List Sample
cut_after accepted s ss = s ∷ ss
cut_after full s ss = s ∷ ss
cut_after disconnected s ss = s ∷ []

-- Those up to the first for which the decoder was found gone.
abbrev pub until_gone : List Sample → List Sample
until_gone [] = []
until_gone (s ∷ ss) = cut_after s.answer s (until_gone ss)

abbrev pub if_taken : Answer → List ℕ → List (List ℕ) → List (List ℕ)
if_taken accepted bytes rest = bytes ∷ rest
if_taken full bytes rest = rest
if_taken disconnected bytes rest = rest

-- The bytes of the units for which the decoder's queue had a place, in order.
abbrev pub taken : List Sample → List (List ℕ)
taken [] = []
taken (s ∷ ss) = if_taken s.answer s.bytes (taken ss)

abbrev pub one_if_full : Answer → ℕ
one_if_full accepted = 0
one_if_full full = 1
one_if_full disconnected = 0

-- How many units found the queue full.
abbrev pub refused : List Sample → ℕ
refused [] = 0
refused (s ∷ ss) = one_if_full s.answer + refused ss

abbrev pub is_gone : Answer → Bool
is_gone accepted = false
is_gone full = false
is_gone disconnected = true

abbrev pub finds_gone : List Sample → Bool
finds_gone [] = false
finds_gone (s ∷ ss) = is_gone s.answer || finds_gone ss

-- What a reader has done with some units.
record Handled (r : Reader) (ss : List Sample) (r' : Reader) : Type 0 where
  delivered : r'.delivered ≡ r.delivered ++ taken (until_gone ss)
  requests : r'.requests ≡ r.requests + refused (until_gone ss)
  samples : r'.samples ≡ r.samples + length (until_gone ss)
  returned : r'.returned ≡ finds_gone ss

if_true : {A : Type 0} (b : Bool) (x y : A) → b ≡ true → x ≡ (if b then x else y)
if_true b x y e = rw e refl

if_false : {A : Type 0} (b : Bool) (x y : A) → b ≡ false → y ≡ (if b then x else y)
if_false b x y e = rw e refl

on_answer-Handled :
    (a : Answer) (bytes : List ℕ) (ss : List Sample) (r : Reader)
    → r.returned ≡ false
    → ((m : Reader) → m.returned ≡ false → Handled m ss (pop_all ss m))
    → Handled r
        (record { bytes = bytes; answer = a } ∷ ss)
        (pop_all (record { bytes = bytes; answer = a } ∷ ss) r)
unfolding pop_all on_answer
on_answer-Handled accepted bytes ss r h ih =
    let next = record r { samples = r.samples + 1; delivered = r.delivered ++ bytes ∷ [] } in
    let rest = ih next h in
    subst (Handled r (record { bytes = bytes; answer = accepted } ∷ ss))
      (if_false r.returned next (pop_all ss next) h)
      (record {
        delivered = rest.delivered ∙ append_assoc r.delivered (bytes ∷ []) (taken (until_gone ss));
        requests = rest.requests ∙ omega arith;
        samples = rest.samples ∙ omega arith;
        returned = rest.returned;
      })
on_answer-Handled full bytes ss r h ih =
    let next = record r { samples = r.samples + 1; requests = r.requests + 1 } in
    let rest = ih next h in
    subst (Handled r (record { bytes = bytes; answer = full } ∷ ss))
      (if_false r.returned next (pop_all ss next) h)
      (record {
        delivered = rest.delivered;
        requests = rest.requests ∙ omega arith;
        samples = rest.samples ∙ omega arith;
        returned = rest.returned;
      })
on_answer-Handled disconnected bytes ss r h ih = record {
  delivered = sym (append_nil r.delivered);
  requests = omega arith;
  samples = refl;
  returned = refl;
}

pop_all-Handled : (ss : List Sample) (r : Reader) → r.returned ≡ false → Handled r ss (pop_all ss r)
unfolding pop_all
pop_all-Handled [] r h = record {
  delivered = sym (append_nil r.delivered);
  requests = omega arith;
  samples = omega arith;
  returned = h;
}
pop_all-Handled (s ∷ ss) r h = on_answer-Handled s.answer s.bytes ss r h (pop_all-Handled ss)

pop_all-append :
    (ss ts : List Sample) (r : Reader)
    → r.returned ≡ false
    → pop_all (ss ++ ts) r
      ≡ (if (pop_all ss r).returned then pop_all ss r else pop_all ts (pop_all ss r))
unfolding pop_all
pop_all-append [] ts r h = rw h refl
pop_all-append (s ∷ ss) ts r h =
    by_end (on_answer s.answer s.bytes (record r { samples = r.samples + 1 }))
      (on_answer s.answer s.bytes (record r { samples = r.samples + 1 })).returned refl
      (pop_all-append ss ts)
  where
    by_end :
        (next : Reader) (b : Bool)
        → next.returned ≡ b
        → ((m : Reader)
            → m.returned ≡ false
            → pop_all (ss ++ ts) m
              ≡ (if (pop_all ss m).returned then pop_all ss m else pop_all ts (pop_all ss m)))
        → let q : Reader = if b then next else pop_all ss next in
          (if b then next else pop_all (ss ++ ts) next) ≡ (if q.returned then q else pop_all ts q)
    by_end next true gone ih = if_true next.returned next (pop_all ts next) gone
    by_end next false stays ih = ih next stays

read_track-completed :
    (es : List TrackEvent) (r : Reader)
    → r.returned ≡ false
    → read_track es r ≡ pop_all (completed es) r
unfolding read_track
read_track-completed [] r h = unfold pop_all in refl
read_track-completed (on_rtp_packet ss ∷ es) r h =
    by_end (pop_all ss r) (pop_all ss r).returned refl (read_track-completed es)
    ∙ sym (pop_all-append ss (completed es) r h)
  where
    by_end :
        (next : Reader) (b : Bool)
        → next.returned ≡ b
        → ((m : Reader) → m.returned ≡ false → read_track es m ≡ pop_all (completed es) m)
        → (if b then next else read_track es next)
          ≡ (if b then next else pop_all (completed es) next)
    by_end next true gone ih = refl
    by_end next false stays ih = ih next stays
read_track-completed (on_ended ∷ es) r h = unfold pop_all in refl
read_track-completed (on_track_other ∷ es) r h = read_track-completed es r h

-- No access unit is lost in silence: of those that the packets complete, up to the end of the track and
-- to the one at which the decoder is found gone, each goes to the decoder, its bytes in order, where
-- the queue has a place, and a keyframe is asked for in its place where the queue is full.
pub read_track-loses_none :
    (es : List TrackEvent)
    → let r = read_track es fresh_reader in
      (r.delivered ≡ taken (until_gone (completed es)))
      × ((r.requests ≡ refused (until_gone (completed es)))
          × (r.returned ≡ finds_gone (completed es)))
read_track-loses_none es =
    let done = pop_all-Handled (completed es) fresh_reader refl in
    rw (read_track-completed es fresh_reader refl)
      (done.delivered, (done.requests ∙ omega arith, done.returned))
