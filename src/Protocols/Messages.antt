-- ===== src/Protocols/Messages.antt =====
-- dkls23-core/src/protocols/messages.rs: tagged frames in byte streams. The codec bincode is a
-- parameter.
pub mod RoundTrip
use kawasekit_dkls.Prelude.{
  ℕ, zero, suc, List, [], ◌∷◌, ◌++◌, length, take, drop, Bytes, to_be_bytes, from_be_bytes, Option,
  none, some, ltb, ◌==◌, if◌then◌else◌, Result, ok, err, ◌>>=◌, ok_or, BTreeMap, get, insert,
}
use Prim.Native.String.{String}

pub data MessageError : Type 0 where
  serialization deserialization invalid_frame : String → MessageError
  tag_mismatch : ℕ → ℕ → MessageError
  not_found : ℕ → MessageError

-- A type of messages: its tag, and bincode's two directions for it, the second with a
-- limit on the bytes that it may read.
pub record MessageTag {ℓ} (T : Type ℓ) : Type ℓ where
  pub tag : ℕ
  pub serialize : T → Result String Bytes
  pub deserialize : ℕ → Bytes → Result String T

pub record PhaseOutput : Type 0 where
  pub broadcasts : List Bytes
  pub p2p : BTreeMap Bytes

pub record PhaseInput : Type 0 where
  pub broadcasts : BTreeMap Bytes
  pub p2p : BTreeMap Bytes

-- `FRAME_HEADER_LEN`, less the tag.
abbrev pub length_bytes : ℕ
length_bytes = 4

abbrev pub map_err {ℓ κ μ} :
    {E : Type ℓ} {F : Type κ} {A : Type μ} → (E → F) → Result E A → Result F A
map_err f (ok a) = ok a
map_err f (err e) = err (f e)

-- The tag, the length of the payload, the payload.
unfoldable pub frame : ℕ → Bytes → Bytes
frame tag payload = tag ∷ to_be_bytes length_bytes (length payload) ++ payload

unfoldable pub output_new : PhaseOutput
output_new = record { broadcasts = []; p2p = [] }

-- `NotFound { .. } => NotFound { sender }`
unfoldable pub name_sender : ℕ → MessageError → MessageError
name_sender sender (not_found _) = not_found sender
name_sender sender (serialization s) = serialization s
name_sender sender (deserialization s) = deserialization s
name_sender sender (invalid_frame s) = invalid_frame s
name_sender sender (tag_mismatch e f) = tag_mismatch e f

-- What is there for a receiver: `entry(receiver).or_default()` gives an empty stream.
unfoldable pub stream_for : ℕ → PhaseOutput → Bytes
stream_for receiver output = elim (get receiver output.p2p) [ some stream ↦ stream | none ↦ [] ]

unfoldable pub set_stream : PhaseOutput → ℕ → Bytes → PhaseOutput
set_stream output receiver stream = record {
  broadcasts = output.broadcasts;
  p2p = insert receiver stream output.p2p;
}

module _ {ℓ} {T : Type ℓ} (c : MessageTag T) where
  unfoldable pub encode_frame : T → Result MessageError Bytes
  encode_frame message = map_err serialization (c.serialize message) >>= λ payload.
      if ltb (length payload) 4294967296
      then ok (frame c.tag payload)
      else err (serialization "payload exceeds u32::MAX")

  -- The loop, on what is left of the stream at `offset`. A round takes the header away at least,
  -- so the length of the stream is enough fuel.
  unfoldable pub find_from : ℕ → Bytes → Result MessageError T
  find_from zero stream = err (not_found 0)
  find_from (suc fuel) [] = err (not_found 0)
  find_from (suc fuel) (tag ∷ more) =
      let len = from_be_bytes 0 (take length_bytes more) in
      let rest = drop length_bytes more in
      let again = find_from fuel (drop len rest) in
      if ltb (length more) length_bytes
      then err (invalid_frame "truncated header")
      else if ltb (length rest) len
      then err (invalid_frame "truncated payload")
      else if tag == c.tag
      then map_err deserialization (c.deserialize len (take len rest))
      else again

  unfoldable pub find_in_stream : Bytes → Result MessageError T
  find_in_stream stream = find_from (length stream) stream

  unfoldable pub add_broadcast : PhaseOutput → T → Result MessageError PhaseOutput
  add_broadcast output message = encode_frame message >>= λ encoded.
      ok (record { broadcasts = output.broadcasts ++ encoded ∷ []; p2p = output.p2p })

  -- The entry is made before the message is encoded, so it stays when the encoding fails.
  unfoldable pub add_p2p : PhaseOutput → ℕ → T → PhaseOutput × Result MessageError (Unit {0})
  add_p2p output receiver message =
      let stream = stream_for receiver output in
      elim (encode_frame message) [
        | ok encoded ↦ (set_stream output receiver (stream ++ encoded), ok tt)
        | err e ↦ (set_stream output receiver stream, err e)
      ]

  unfoldable pub get_from : BTreeMap Bytes → ℕ → Result MessageError T
  get_from streams sender = ok_or (not_found sender) (get sender streams) >>= λ stream.
      map_err (name_sender sender) (find_in_stream stream)

  unfoldable pub get_broadcast : PhaseInput → ℕ → Result MessageError T
  get_broadcast input sender = get_from input.broadcasts sender

  unfoldable pub get_p2p : PhaseInput → ℕ → Result MessageError T
  get_p2p input sender = get_from input.p2p sender
