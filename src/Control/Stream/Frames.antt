-- ===== src/Control/Stream/Frames.antt =====
-- Frames survive a byte stream, and their length is limited on both sides.
use grpc_mesh_server.Prelude.{
  ℕ, ◌+◌, ◌^◌, ◌<◌, ◌≤◌, ◌≡◌, refl, inl, inr, true, List, [], ◌∷◌, ◌++◌, some, arith, length, Str,
  Option-cases, All, map, ◌∙◌,
}
use mathlib.Core.List.{append_assoc}
use mathlib.Core.Path.{ap₂}
use grpc_mesh_server.Control.Stream.{
  YamuxStream, ControlStream, Result, ok, err, frame_too_large, put_uint32, uint32, send_frame,
  receive_frame, read_frame, write_frame, apply_deadline, read_payload, read_body,
}

-- `uint32 (put_uint32 n)` is n, for every uint32.
uint32-put_uint32 : (n : ℕ) → n < 2 ^ 32 → uint32 (put_uint32 n) ≡ n
unfolding uint32 put_uint32
uint32-put_uint32 n h = omega arith

-- The bytes of a frame.
abbrev pub frame : Str → Str
frame payload = put_uint32 (length payload) ++ payload

-- A byte stream read in order: `unread` is what has arrived and has not been read. A read takes
-- exactly the bytes asked for, if they are there; a deadline does not touch them.
pub record IsReader {S : Type 0} (yamux : YamuxStream S) (unread : S → Str) : Type 0 where
  pub read_enough :
      (s : S) (bytes rest : Str)
      → unread s ≡ bytes ++ rest
      → ((yamux.read_full s (length bytes)).1 ≡ some bytes)
        × (unread (yamux.read_full s (length bytes)).0 ≡ rest)
  pub read_exact :
      (s : S) (n : ℕ) (bytes : Str) → (yamux.read_full s n).1 ≡ some bytes → length bytes ≡ n
  pub unread_deadline : (s : S) (t : ℕ) → unread (yamux.set_deadline s t).0 ≡ unread s

-- What a write that succeeds adds to the bytes sent.
pub record IsWriter {S : Type 0} (yamux : YamuxStream S) (sent : S → Str) : Type 0 where
  pub write_appends :
      (s : S) (bytes : Str)
      → (yamux.write s bytes).1 ≡ true
      → sent (yamux.write s bytes).0 ≡ sent s ++ bytes
  pub sent_deadline : (s : S) (t : ℕ) → sent (yamux.set_deadline s t).0 ≡ sent s

module _ {S : Type 0} (yamux : YamuxStream S) where
  sent-apply_deadline :
      (sent : S → Str) (writer : IsWriter yamux sent) (cs : ControlStream S) (now : ℕ)
      → sent (apply_deadline yamux cs now).0 ≡ sent cs.stream
  unfolding apply_deadline
  sent-apply_deadline sent writer cs now =
      ground (arith, writer.sent_deadline cs.stream (now + cs.deadline))

  sent-write_frame :
      (sent : S → Str) (writer : IsWriter yamux sent) (s : S) (payload : Str)
      → (write_frame yamux s payload).1 ≡ ok tt
      → sent (write_frame yamux s payload).0 ≡ sent s ++ frame payload
  unfolding write_frame
  sent-write_frame sent writer s payload h =
      let header = put_uint32 (length payload) in
      let s' = (yamux.write s header).0 in
      ground (
        arith,
        writer.write_appends s header,
        writer.write_appends s' payload,
        append_assoc (sent s) header payload,
      )

  -- A frame over the limit is refused by the sender before it touches the stream; a frame that is
  -- sent is within the limit and adds its header and payload, and nothing else, to the bytes sent.
  pub send_frame_sends :
      (sent : S → Str) (writer : IsWriter yamux sent) (cs : ControlStream S) (now : ℕ)
      (payload : Str)
      → (cs.max_frame < length payload
          → send_frame yamux cs now payload
            ≡ (cs, err (frame_too_large (length payload) cs.max_frame)))
        × ((send_frame yamux cs now payload).1 ≡ ok tt
            → (length payload ≤ cs.max_frame)
              × (sent (send_frame yamux cs now payload).0.stream ≡ sent cs.stream ++ frame payload))
  unfolding send_frame
  send_frame_sends sent writer cs now payload =
      let s = (apply_deadline yamux cs now).0 in
      (
        ground arith,
        ground
            (arith, sent-write_frame sent writer s payload, sent-apply_deadline sent writer cs now),
      )

  unread-apply_deadline :
      (unread : S → Str) (reader : IsReader yamux unread) (cs : ControlStream S) (now : ℕ)
      → unread (apply_deadline yamux cs now).0 ≡ unread cs.stream
  unfolding apply_deadline
  unread-apply_deadline unread reader cs now =
      ground (arith, reader.unread_deadline cs.stream (now + cs.deadline))

  read_payload_exact :
      (unread : S → Str) (reader : IsReader yamux unread) (s : S) (size : ℕ) (payload : Str)
      → (read_payload yamux s size).1 ≡ ok payload
      → length payload ≡ size
  unfolding read_payload
  read_payload_exact unread reader s size payload h =
      ground (arith, reader.read_exact s size payload)

  read_body_bounded :
      (unread : S → Str) (reader : IsReader yamux unread) (s : S) (size limit : ℕ) (payload : Str)
      → (read_body yamux s size limit).1 ≡ ok payload
      → length payload ≤ limit
  unfolding read_body
  read_body_bounded unread reader s size limit payload h =
      ground (arith, read_payload_exact unread reader s size payload)

  read_frame_bounded :
      (unread : S → Str) (reader : IsReader yamux unread) (s : S) (limit : ℕ) (payload : Str)
      → (read_frame yamux s limit).1 ≡ ok payload
      → length payload ≤ limit
  unfolding read_frame
  read_frame_bounded unread reader s limit payload h = elim (Option-cases (yamux.read_full s 4).1) [
    | inl e ↦ absurd (ground arith)
    | inr (header, e) ↦ ground (
      arith,
      read_body_bounded unread reader (yamux.read_full s 4).0 (uint32 header) limit payload,
    )
  ]

  -- A received payload is never longer than the limit of the stream.
  pub receive_frame_bounded :
      (unread : S → Str) (reader : IsReader yamux unread) (cs : ControlStream S) (now : ℕ)
      (payload : Str)
      → (receive_frame yamux cs now).1 ≡ ok payload
      → length payload ≤ cs.max_frame
  unfolding receive_frame
  receive_frame_bounded unread reader cs now payload h =
      let s = (apply_deadline yamux cs now).0 in
      ground (arith, read_frame_bounded unread reader s cs.max_frame payload)

  read_frame_round_trip :
      (unread : S → Str) (reader : IsReader yamux unread) (s : S) (limit : ℕ) (payload rest : Str)
      → limit < 2 ^ 32
      → length payload ≤ limit
      → unread s ≡ frame payload ++ rest
      → ((read_frame yamux s limit).1 ≡ ok payload) × (unread (read_frame yamux s limit).0 ≡ rest)
  unfolding read_frame read_body read_payload
  read_frame_round_trip unread reader s limit payload rest l h u =
      let header = put_uint32 (length payload) in
      let s' = (yamux.read_full s 4).0 in
      let first : ((yamux.read_full s 4).1 ≡ some header) × (unread s' ≡ payload ++ rest) =
        unfold put_uint32 in reader.read_enough s header (payload ++ rest) u in
      let second = reader.read_enough s' payload rest (first.1) in
      ground (arith, first, second, uint32-put_uint32 (length payload))

  deadline_set :
      (cs : ControlStream S) (now : ℕ)
      → ((s : S) (t : ℕ) → (yamux.set_deadline s t).1 ≡ true)
      → (apply_deadline yamux cs now).1 ≡ true
  unfolding apply_deadline
  deadline_set cs now w = ground (arith, w cs.stream (now + cs.deadline))

  -- If deadlines can be set, the unread bytes begin with the frame of a payload within the limit,
  -- and the limit is a uint32, then a receive returns this payload and leaves the bytes behind it.
  pub receive_frame_round_trip :
      (unread : S → Str) (reader : IsReader yamux unread)
      (deadlines : (s : S) (t : ℕ) → (yamux.set_deadline s t).1 ≡ true) (cs : ControlStream S)
      (now : ℕ) (payload rest : Str)
      → cs.max_frame < 2 ^ 32
      → length payload ≤ cs.max_frame
      → unread cs.stream ≡ frame payload ++ rest
      → let r = receive_frame yamux cs now in
        (r.1 ≡ ok payload) × (unread r.0.stream ≡ rest) × (r.0.max_frame ≡ cs.max_frame)
  unfolding receive_frame
  receive_frame_round_trip unread reader deadlines cs now payload rest l h u =
      let s = (apply_deadline yamux cs now).0 in
      let u' : unread s ≡ frame payload ++ rest = unread-apply_deadline unread reader cs now ∙ u in
      ground (
        arith,
        deadline_set cs now deadlines,
        read_frame_round_trip unread reader s cs.max_frame payload rest l h u',
      )

  -- One receive at each of the times.
  unfoldable pub receive_many : ControlStream S → List ℕ → ControlStream S × List (Result Str)
  receive_many cs [] = (cs, [])
  receive_many cs (now ∷ times) =
      let (cs', result) = receive_frame yamux cs now in
      let (cs'', results) = receive_many cs' times in (cs'', result ∷ results)

abbrev pub frames : List Str → Str
frames [] = []
frames (payload ∷ payloads) = frame payload ++ frames payloads

module _ {S : Type 0} (yamux : YamuxStream S) where
  -- If deadlines can be set and the unread bytes are the frames of some payloads within the limit,
  -- one after another, then as many receives return these payloads in their order, and leave what
  -- follows them.
  pub receive_many_round_trip :
      (unread : S → Str) (reader : IsReader yamux unread)
      (deadlines : (s : S) (t : ℕ) → (yamux.set_deadline s t).1 ≡ true) (cs : ControlStream S)
      (payloads : List Str) (times : List ℕ) (rest : Str)
      → cs.max_frame < 2 ^ 32
      → All (λ p. length p ≤ cs.max_frame) payloads
      → length times ≡ length payloads
      → unread cs.stream ≡ frames payloads ++ rest
      → let r = receive_many yamux cs times in (r.1 ≡ map ok payloads) × (unread r.0.stream ≡ rest)
  unfolding receive_many
  receive_many_round_trip unread reader deadlines cs [] [] rest l h e u = (refl, u)
  receive_many_round_trip unread reader deadlines cs [] (t ∷ times) rest l h e u =
      absurd (omega arith)
  receive_many_round_trip unread reader deadlines cs (p ∷ payloads) [] rest l h e u =
      absurd (omega arith)
  receive_many_round_trip unread reader deadlines cs (p ∷ payloads) (now ∷ times) rest l h e u =
      let cs' = (receive_frame yamux cs now).0 in
      let (a, b, c) =
        receive_frame_round_trip yamux unread reader deadlines cs now p (frames payloads ++ rest) l
          h.0 (u ∙ append_assoc (frame p) (frames payloads) rest) in
      let (x, y) =
        receive_many_round_trip unread reader deadlines cs' payloads times rest (rw c l)
          (rw c (h.1)) (omega arith) b in
      (ap₂ (◌∷◌) a x, y)
