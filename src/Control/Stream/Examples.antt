-- ===== src/Control/Stream/Examples.antt =====
-- Streams that are pairs of the bytes to read and the bytes written, with the toy documents.
use grpc_mesh_server.Prelude.{
  ℕ, zero, suc, ◌≡◌, refl, true, [], ◌∷◌, ◌++◌, Option, none, some, arith, length, Str, codes,
  str_eq, str_eq_instance, map,
}
use grpc_mesh_server.Map.{has, lookup}
use grpc_mesh_server.Control.Messages.{ControlMessage, node_id_required, validate_message}
use grpc_mesh_server.Control.Stream.{
  YamuxStream, ControlStream, ok, err, rejected, put_uint32, send_frame, send_json, send_handshake,
  send_control_message, receive_handshake, receive_control_message_raw, receive_control_message,
}
use grpc_mesh_server.Control.Stream.Frames.{
  frame, frames, IsReader, IsWriter, receive_many, receive_many_round_trip,
}
use grpc_mesh_server.Control.Stream.Toy.{
  blank, is_plain, toy_marshal, toy, IsByte, toy-IsJson, toy-IgnoresEnvelope,
}
use grpc_mesh_server.Control.Stream.Documents.{IsPlain, Alike}
use grpc_mesh_server.Control.Stream.Exchange.{verdict, message_round_trip, sent_handshake_refused}

abbrev Pair : Type 0
Pair = Str × Str

read_pair : Str → ℕ → Option (Str × Str)
read_pair bytes zero = some ([], bytes)
read_pair [] (suc n) = none
read_pair (b ∷ bytes) (suc n) = elim (read_pair bytes n) [
  | none ↦ none
  | some (first, rest) ↦ some (b ∷ first, rest)
]

abbrev after_read : Str → Pair → Option (Str × Str) → Pair × Option Str
after_read out s none = (s, none)
after_read out s (some (first, rest)) = ((rest, out), some first)

abbrev pairs : YamuxStream Pair
pairs = record {
  write = λ s bytes. ((s.0, s.1 ++ bytes), true);
  read_full = λ s n. after_read s.1 s (read_pair s.0 n);
  set_deadline = λ s t. (s, true);
  close = λ s. (s, true);
}

abbrev unread : Pair → Str
unread s = s.0

abbrev sent : Pair → Str
sent s = s.1

read_pair-append :
    (bytes rest : Str) → read_pair (bytes ++ rest) (length bytes) ≡ some (bytes, rest)
unfolding read_pair
read_pair-append [] rest = refl
read_pair-append (b ∷ bytes) rest = rw (read_pair-append bytes rest)

read_pair-length :
    (s : Str) (n : ℕ) (first rest : Str) → read_pair s n ≡ some (first, rest) → length first ≡ n
unfolding read_pair
read_pair-length s zero first rest e = ground arith
read_pair-length [] (suc n) first rest e = cc
read_pair-length (b ∷ s) (suc n) [] rest e = ground arith
read_pair-length (b ∷ s) (suc n) (c ∷ first) rest e =
    ground (arith, read_pair-length s n first rest)

read_exact_of :
    (out : Str) (s : Pair) (o : Option (Str × Str)) (n : ℕ) (bytes : Str)
    → ((first rest : Str) → o ≡ some (first, rest) → length first ≡ n)
    → (after_read out s o).1 ≡ some bytes
    → length bytes ≡ n
read_exact_of out s none n bytes l e = cc
read_exact_of out s (some (first, rest)) n bytes l e = ground (arith, l first rest refl)

pairs-IsReader : IsReader pairs unread
pairs-IsReader = record {
  read_enough = λ s bytes rest e. ground (arith, read_pair-append bytes rest);
  read_exact =
      λ s n bytes e. read_exact_of s.1 s (read_pair s.0 n) n bytes (read_pair-length s.0 n) e;
  unread_deadline = λ s t. refl;
}

pairs-IsWriter : IsWriter pairs sent
pairs-IsWriter = record { write_appends = λ s bytes e. refl; sent_deadline = λ s t. refl }

abbrev start : Str → ControlStream Pair
start bytes = record { stream = (bytes, []); max_frame = 1_000; deadline = 5 }

hi : Str
unfolding put_uint32
hi = frame (codes "hi")

receive_many_round_trip_example :
    let r = receive_many pairs (start (frames (codes "hi" ∷ [] ∷ []) ++ 7 ∷ [])) (1 ∷ 2 ∷ []) in
    (r.1 ≡ map ok (codes "hi" ∷ [] ∷ [])) × (unread r.0.stream ≡ 7 ∷ [])
receive_many_round_trip_example =
    receive_many_round_trip pairs unread pairs-IsReader (λ s t. refl)
      (start (frames (codes "hi" ∷ [] ∷ []) ++ 7 ∷ [])) (codes "hi" ∷ [] ∷ []) (1 ∷ 2 ∷ []) (7 ∷ [])
      (omega arith) (omega arith) refl refl

abbrev custom : ControlMessage ℕ
custom = record {
  kind = codes "custom";
  handshake = none;
  heartbeat = none;
  payload = (codes "k", 7) ∷ [];
}

custom-IsPlain : IsPlain IsByte custom
unfolding has lookup
custom-IsPlain = record {
  kind = omega arith;
  handshake = tt;
  heartbeat = tt;
  payload = omega arith;
  payload_map = (refl, tt);
}

abbrev after_send : Str
unfolding send_control_message send_json send_frame put_uint32 toy_marshal str_eq
after_send = (send_control_message pairs toy (start []) 0 custom).0.stream.1

message_round_trip_example :
    (m' : ControlMessage ℕ) × Alike custom m'
    × ((receive_control_message_raw pairs toy (start after_send) 9).1 ≡ ok m')
    × ((receive_control_message pairs toy (start after_send) 9 1_000).1
        ≡ verdict m' (validate_message custom 1_000))
unfolding send_control_message send_json send_frame put_uint32 toy_marshal str_eq
message_round_trip_example =
    message_round_trip pairs toy unread sent pairs-IsReader pairs-IsWriter (λ s t. refl) IsByte
      toy-IsJson (start []) (start after_send) 0 9 1_000 custom custom-IsPlain (omega arith)
      (omega arith) refl refl refl

abbrev after_hello : Str
unfolding send_handshake send_json send_frame put_uint32 toy_marshal str_eq is_plain
after_hello = (send_handshake pairs toy (start []) 0 (blank (codes "a"))).0.stream.1

sent_handshake_refused_example :
    (receive_handshake pairs toy (start after_hello) 9 1_000).1 ≡ err (rejected node_id_required)
unfolding send_handshake send_json send_frame put_uint32 toy_marshal str_eq is_plain
sent_handshake_refused_example =
    sent_handshake_refused pairs toy unread sent pairs-IsReader pairs-IsWriter (λ s t. refl)
      toy-IgnoresEnvelope (start []) (start after_hello) 0 9 1_000 (blank (codes "a")) (omega arith)
      (omega arith) refl refl refl
