-- ===== src/Lib.antt =====
-- Verification library of the DKLs23 threshold ECDSA crates.
--
-- The program. dkls23-core lets n parties generate an ECDSA key of which any t can sign, with
-- nobody ever holding the key. dkls23-core/src/utilities has the building blocks: tagged hashes,
-- commitments, zero shares, zero-knowledge proofs, oblivious transfer. dkls23-core/src/protocols
-- has the protocols that are built from them: key generation, signing, refresh, derivation.
--
-- Files and sources.
--  * Prelude: tests, lists, results (Rust's `Result`), byte encodings, exclusive or, tables and
--    bits.
--  * Backend: the elliptic curve and SHA-256, which are third-party code
--    (dkls23-core/src/curve.rs names them), as a record of operations, with their documented
--    laws as records of their own that theorems take as hypotheses. Backend.Toy, Backend.Wide and
--    Backend.Large are concrete instances.
--  * Utilities.OracleTags, Hashes, Commits, ZeroShares, Ot: the files of
--    dkls23-core/src/utilities with the same names. Utilities.Ot.Base: ot/base.rs.
--    Utilities.Ot.Extension: ot/extension.rs, with `OTESender` and `OTEReceiver` in Sender and
--    Receiver, and the functions at its end in Transpose and FieldMul.
--  * Utilities.Multiplication: multiplication.rs, with the parties in Sender and Receiver.
--  * Utilities.Proofs: proofs.rs, `DLogProof` in Proofs.DLog, `CPProof` and `EncProof` in
--    Proofs.Enc.
--  * Protocols: dkls23-core/src/protocols.rs, the shared types. Protocols.Dkg: steps 1, 2, 3 and
--    5 of protocols/dkg.rs, and phases 1 and 2 in Protocols.Dkg.Phases. Protocols.Messages:
--    protocols/messages.rs, with bincode as a parameter. The theorems of Protocols.Dkg stand on
--    Backend.Polynomial (divided differences and Lagrange interpolation).
--  * Protocols.Signature: protocols/signature.rs, and the hex crate as the record `Hex`.
--    Protocols.Signing: protocols/signing.rs, its data, session ids and the verification; the
--    four `sign_phase` methods of `Party` in PhaseOne to PhaseFour, and the tests on messages
--    that they share in Guards.
--  * Protocols.SignSession: protocols/sign_session.rs. `SignSession` is a record, and its methods
--    return the session after the call. An application may call them in any order
--    (Protocols.SignSession.Order), and the abstract view of a session has four stages
--    (Protocols.SignSession.Stages).
--  * Protocols.Derivation: protocols/derivation.rs, with HMAC-SHA512 and RIPEMD-160 as the record
--    `DerivHashes`. A path is the list of its characters' codes.
--  * Examples and its children: each theorem at a concrete input.
--
-- Conventions. A function is named like the source's; a method whose name several types share is
-- prefixed (`cp_verify`, `enc_verify`, `sender_run_phase2`). Bytes are numbers, and arrays and
-- vectors are lists. Affine and projective points are one type. What the source draws at random
-- is an argument: a scalar, or a function from the number of the draw. Comparison in constant
-- time is equality. A `BTreeMap` is an association list in the order of its keys. A panic is the
-- value `panics` of the type of failures, and `mul_panics` in the runs of the multiplication.
-- Arithmetic on `u8` wraps around, as it does without overflow checks.
--
-- Bounds. A loop that redraws until a scalar is nonzero has a number of tries as fuel. The two
-- nested search loops of the Fischlin proof run for `u16::MAX` rounds in the source and on that
-- much fuel here, and give an error when it is used up, as the source does. The loop that
-- stretches a seed has the number of bytes wanted as fuel, and each digest adds 32. The search in a
-- message stream has the length of the stream as fuel, and takes at least the five bytes of a
-- header away in each round. The other loops go through lists.
--
-- Not modelled: memory hygiene (zeroizing, constant time), serde, the curve crates; phases 3 and
-- 4 of key generation, the sessions of key generation, refresh and the re-key of a trusted dealer.
mod Prelude
pub mod Backend
pub mod Examples
pub mod Protocols
pub mod Utilities
