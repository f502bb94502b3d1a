-- ===== src/Protocols/Messages/RoundTrip.antt =====
-- A message that was added to a stream is found again.
use kawasekit_dkls.Prelude.{
  ℕ, zero, suc, ◌≤◌, ◌<◌, ◌≡◌, ◌≢◌, refl, sym, ap, ◌∙◌, subst, List, [], ◌∷◌, ◌++◌, append_assoc,
  append-nil, length, length-append, take, drop, take-append, drop-append, Bytes, to_be_bytes,
  from_be_bytes, length-to_be_bytes, from-to_be_bytes, some, false, Bool-cases, ◌⊎◌, inl, inr, ltb,
  ltb→lt, ◌==◌, ==_refl, ==_false, if◌then◌else◌, Result, ok, err, >>=-eq-ok, get, get-insert, All,
  arith,
}
use kawasekit_dkls.Protocols.Messages.{
  MessageError, MessageTag, PhaseOutput, PhaseInput, frame, encode_frame, find_from, find_in_stream,
  stream_for, add_p2p, get_from, get_p2p, serialization, deserialization, map_err, set_stream,
}

header_take : (n : ℕ) (rest : Bytes) → take 4 (to_be_bytes 4 n ++ rest) ≡ to_be_bytes 4 n
header_take n rest =
    subst (λ k. take k (to_be_bytes 4 n ++ rest) ≡ to_be_bytes 4 n) (length-to_be_bytes 4 n)
      (take-append (to_be_bytes 4 n) rest)

header_drop : (n : ℕ) (rest : Bytes) → drop 4 (to_be_bytes 4 n ++ rest) ≡ rest
header_drop n rest =
    subst (λ k. drop k (to_be_bytes 4 n ++ rest) ≡ rest) (length-to_be_bytes 4 n)
      (drop-append (to_be_bytes 4 n) rest)

map_err-eq-ok {ℓ κ μ} :
    {E : Type ℓ} {F : Type κ} {A : Type μ} (f : E → F) (r : Result E A) {a : A}
    → map_err f r ≡ ok a
    → r ≡ ok a
map_err-eq-ok f (ok a) h = cc
map_err-eq-ok f (err e) h = cc

Result-cases {ℓ κ} :
    {E : Type ℓ} {A : Type κ} (r : Result E A) → ((a : A) × (r ≡ ok a)) ⊎ ((e : E) × (r ≡ err e))
Result-cases (ok a) = inl (a, refl)
Result-cases (err e) = inr (e, refl)

-- A payload whose length fits a `u32`.
abbrev pub FitsU32 : Bytes → Type 0
FitsU32 payload = length payload < 4294967296

module _ {ℓ} {T : Type ℓ} (c : MessageTag T) where
  found_with :
      (fuel tag : ℕ) (more payload after : Bytes)
      → FitsU32 payload
      → more ≡ to_be_bytes 4 (length payload) ++ (payload ++ after)
      → find_from c (suc fuel) (tag ∷ more) ≡ (
          if tag == c.tag
          then map_err deserialization (c.deserialize (length payload) payload)
          else find_from c fuel after)
  unfolding find_from
  found_with fuel tag more payload after fits e =
      let n = length payload in
      let len : from_be_bytes 0 (take 4 more) ≡ n =
        ap (λ m. from_be_bytes 0 (take 4 m)) e
        ∙ ap (from_be_bytes 0) (header_take n (payload ++ after))
        ∙ from-to_be_bytes 4 n (omega (arith, fits)) in
      let rest : drop 4 more ≡ payload ++ after =
        ap (drop 4) e ∙ header_drop n (payload ++ after) in
      let long : ltb (length more) 4 ≡ false = ground (
        arith,
        ap length e,
        length-append (to_be_bytes 4 n) (payload ++ after),
        length-to_be_bytes 4 n,
      ) in
      let whole : ltb (length (payload ++ after)) n ≡ false =
        ground (arith, length-append payload after) in
      rw (long, len, rest, whole, take-append payload after, drop-append payload after) refl

  -- Frames with other tags.
  abbrev pub Other : ℕ × Bytes → Type 0
  Other f = (f.0 ≢ c.tag) × FitsU32 f.1

  abbrev pub frames : List (ℕ × Bytes) → Bytes
  frames [] = []
  frames (f ∷ fs) = frame f.0 f.1 ++ frames fs

  -- A codec that reads back what it has written, within the limit of its length.
  abbrev pub ReadsBack : Type ℓ
  ReadsBack =
      (message : T) (payload : Bytes)
      → c.serialize message ≡ ok payload
      → c.deserialize (length payload) payload ≡ ok message

  find_frames :
      (before : List (ℕ × Bytes)) (payload after : Bytes) (message : T) (fuel : ℕ)
      → All Other before
      → FitsU32 payload
      → c.deserialize (length payload) payload ≡ ok message
      → length before < fuel
      → find_from c fuel (frames before ++ (frame c.tag payload ++ after)) ≡ ok message
  unfolding frame
  find_frames [] payload after message (suc fuel) others fits back enough =
      found_with fuel c.tag _ payload after fits (append_assoc _ payload after)
      ∙ rw (==_refl c.tag, back) refl
  find_frames ((t, p) ∷ before) payload after message (suc fuel) others fits back enough =
      found_with fuel t _ p (frames before ++ (frame c.tag payload ++ after)) others.0.1 (
        append_assoc (to_be_bytes 4 (length p) ++ p) (frames before) _
        ∙ append_assoc (to_be_bytes 4 (length p)) p _)
      ∙ rw (==_false t c.tag others.0.0)
          (find_frames before payload after message fuel others.1 fits back (omega (arith, enough)))
  find_frames before payload after message zero others fits back enough = elim enough [ ]

  length-frames : (before : List (ℕ × Bytes)) → length before ≤ length (frames before)
  unfolding frame
  length-frames [] = omega arith
  length-frames (f ∷ before) = omega (
    arith,
    length-frames before,
    length-append (to_be_bytes 4 (length f.1) ++ f.1) (frames before),
  )

  search_whole :
      (before : List (ℕ × Bytes)) (payload after : Bytes) {message : T}
      → c.deserialize (length payload) payload ≡ ok message
      → All Other before
      → FitsU32 payload
      → find_in_stream c (frames before ++ (frame c.tag payload ++ after)) ≡ ok message
  unfolding find_in_stream
  search_whole before payload after {message = message} back others fits =
      find_frames before payload after message _ others fits back (
        omega (
          arith,
          length-frames before,
          length-append (frames before) (frame c.tag payload ++ after),
          tail_nonempty payload after,
        ))
    where
      tail_nonempty : (payload after : Bytes) → 1 ≤ length (frame c.tag payload ++ after)
      tail_nonempty payload after = unfold frame in omega arith

  encode_frame_ok :
      (message : T) (encoded : Bytes)
      → encode_frame c message ≡ ok encoded
      → (payload : Bytes) × (c.serialize message ≡ ok payload)
        × FitsU32 payload
        × (encoded ≡ frame c.tag payload)
  unfolding encode_frame
  encode_frame_ok message encoded h =
      let (payload, made, e) = >>=-eq-ok (map_err serialization (c.serialize message)) _ h in
      elim (Bool-cases (ltb (length payload) 4294967296)) [
        | inl small ↦
            let same : ok (frame c.tag payload) ≡ ok encoded = rw small at e in
            (payload, map_err-eq-ok serialization (c.serialize message) made, ltb→lt _ _ small, cc)
        | inr large ↦
            let same : err (serialization "payload exceeds u32::MAX") ≡ ok encoded =
              rw large at e in
            cc
      ]

  add_p2p-encoded :
      (output : PhaseOutput) (receiver : ℕ) (message : T) (encoded : Bytes)
      → encode_frame c message ≡ ok encoded
      → add_p2p c output receiver message
        ≡ (set_stream output receiver (stream_for receiver output ++ encoded), ok tt)
  unfolding add_p2p
  add_p2p-encoded output receiver message encoded e = rw (add_p2p, e) refl

  add_p2p-failed :
      (output : PhaseOutput) (receiver : ℕ) (message : T) (failure : MessageError)
      → encode_frame c message ≡ err failure
      → add_p2p c output receiver message
        ≡ (set_stream output receiver (stream_for receiver output), err failure)
  unfolding add_p2p
  add_p2p-failed output receiver message failure e = rw (add_p2p, e) refl

  add_p2p_ok :
      (output : PhaseOutput) (receiver : ℕ) (message : T)
      → (add_p2p c output receiver message).1 ≡ ok tt
      → (encoded : Bytes) × (encode_frame c message ≡ ok encoded)
        × (get receiver (add_p2p c output receiver message).0.p2p
            ≡ some (stream_for receiver output ++ encoded))
  unfolding set_stream
  add_p2p_ok output receiver message h = elim (Result-cases (encode_frame c message)) [
    | inl (encoded, e) ↦ (
      encoded,
      e,
      ap (λ t. get receiver t.0.p2p) (add_p2p-encoded output receiver message encoded e)
          ∙ get-insert receiver receiver (stream_for receiver output ++ encoded) output.p2p
          ∙ rw (==_refl receiver) refl,
    )
    | inr (failure, e) ↦
        let same : err failure ≡ ok tt =
          sym (ap (λ t. t.1) (add_p2p-failed output receiver message failure e)) ∙ h in
        cc
  ]

  -- In a stream of frames with other tags, then a frame of the type that is looked for and then
  -- anything, the search gives the message of that frame: no prefix and no limit cuts it short.
  -- All payloads have fewer than 2 ^ 32 bytes, and the codec reads back what it has written.
  pub find_in_stream-encode_frame :
      (before : List (ℕ × Bytes)) (after encoded : Bytes) (message : T)
      → All Other before
      → ReadsBack
      → encode_frame c message ≡ ok encoded
      → find_in_stream c (frames before ++ (encoded ++ after)) ≡ ok message
  find_in_stream-encode_frame before after encoded message others back h =
      let (payload, made, fits, e) = encode_frame_ok message encoded h in
      ap (λ b. find_in_stream c (frames before ++ (b ++ after))) e
      ∙ search_whole before payload after (back message payload made) others fits

  -- Let the stream for a receiver consist of frames with other tags. After `add_p2p` has succeeded
  -- for a message, whoever is handed the receiver's stream gets the message by `get_p2p`. The
  -- codec reads back what it has written, and all earlier payloads have fewer than 2 ^ 32 bytes.
  pub add_p2p-get_p2p :
      (output : PhaseOutput) (input : PhaseInput) (receiver sender : ℕ) (message : T)
      (before : List (ℕ × Bytes))
      → All Other before
      → ReadsBack
      → stream_for receiver output ≡ frames before
      → (add_p2p c output receiver message).1 ≡ ok tt
      → get sender input.p2p ≡ get receiver (add_p2p c output receiver message).0.p2p
      → get_p2p c input sender ≡ ok message
  add_p2p-get_p2p output input receiver sender message before others back stream added delivered =
      let (encoded, made, kept) = add_p2p_ok output receiver message added in
      let has : get sender input.p2p ≡ some (frames before ++ encoded) =
        delivered ∙ kept ∙ ap (λ b. some (b ++ encoded)) stream in
      let found : find_in_stream c (frames before ++ encoded) ≡ ok message =
        ap (λ b. find_in_stream c (frames before ++ b)) (sym (append-nil encoded))
        ∙ find_in_stream-encode_frame before [] encoded message others back made in
      unfold get_p2p get_from in rw (has, found) refl
