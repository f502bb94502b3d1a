-- ===== src/Examples/Messages.antt =====
-- The theorems on message streams at concrete inputs.
use kawasekit_dkls.Prelude.{
  ℕ, ◌≡◌, refl, subst, length, List, [], ◌∷◌, ◌++◌, Bytes, Result, ok, err, arith, get, insert,
}
use kawasekit_dkls.Protocols.Messages.{
  MessageTag, PhaseOutput, PhaseInput, frame, encode_frame, find_in_stream, stream_for, set_stream,
  add_p2p, get_p2p,
}
use kawasekit_dkls.Protocols.Messages.RoundTrip.{
  frames, ReadsBack, find_in_stream-encode_frame, add_p2p-get_p2p,
}
use Prim.Native.String.{String}

-- Messages of one byte with the tag 5.
abbrev read_byte : ℕ → Bytes → Result String ℕ
read_byte limit [] = err "empty"
read_byte limit (b ∷ bs) = ok b

abbrev one_byte : MessageTag ℕ
one_byte = record { tag = 5; serialize = λ n. ok (n ∷ []); deserialize = read_byte }

reads_back : ReadsBack one_byte
reads_back message payload h =
    let same : message ∷ [] ≡ payload = cc in
    subst (λ p. one_byte.deserialize (length p) p ≡ ok message) same refl

-- A frame of two bytes with the tag 1.
abbrev earlier : List (ℕ × Bytes)
earlier = (1, 8 ∷ 9 ∷ []) ∷ []

find_in_stream-encode_frame_example :
    find_in_stream one_byte (frames one_byte earlier ++ (frame 5 (42 ∷ []) ++ (1 ∷ 2 ∷ []))) ≡ ok 42
unfolding encode_frame
find_in_stream-encode_frame_example =
    find_in_stream-encode_frame one_byte earlier (1 ∷ 2 ∷ []) (frame 5 (42 ∷ [])) 42
      (((λ e. omega (arith, e)), omega arith), tt) reads_back refl

abbrev output : PhaseOutput
output = record { broadcasts = []; p2p = (3, frames one_byte earlier) ∷ [] }

abbrev input : PhaseInput
input = record { broadcasts = []; p2p = (7, frames one_byte earlier ++ frame 5 (42 ∷ [])) ∷ [] }

add_p2p-get_p2p_example : get_p2p one_byte input 7 ≡ ok 42
unfolding stream_for add_p2p encode_frame set_stream get insert
add_p2p-get_p2p_example =
    add_p2p-get_p2p one_byte output input 3 7 42 earlier
      (((λ e. omega (arith, e)), omega arith), tt) reads_back refl refl refl
