-- ===== src/Lib.antt =====
-- Project Solomon: a proxy that adds post-quantum signatures to ISO 8583 payment messages, keeps a
-- hash chain of audit records, runs under a licence with an offline grace period, and has a proof
-- system over the Goldilocks field.
--
-- The parts, and the files that they are modelled from:
--   Bcd         solomon-core/src/bcd.rs: packed decimals and length headers.
--   Calendar    the dates of solomon-core/src/iso8583.rs, copied in solomon-core/src/audit/logger.rs.
--   Iso8583     solomon-core/src/iso8583.rs: Schema (types of the fields), Message (the struct and its
--               map), Text (decimal and hexadecimal text), Bitmap, Serialize, Parse. The parsers and
--               serializers use Bcd for the AS2805 format. Parse/ has what the readers return,
--               RoundTrip/ has one file per format, Limits what is refused.
--   Audit       solomon-core/src/audit: Record (record.rs and the hashers of crypto_traits.rs), Chain
--               (chain.rs), Logger (background_worker of logger.rs), Anomaly (anomaly.rs),
--               Localization (data_localization.rs). The worker
--               makes the records of a chain with compute_hash, and rotates its files by the date of
--               Calendar.
--   Heartbeat   solomon-core/src/heartbeat.rs: status, cache file, recovery.
--   Ebcdic      solomon-core/src/ebcdic.rs: the translation of text.
--   Crypto      solomon-core/src/crypto: Word (i32 in two's complement), Scalar (scalar.rs), Packing
--               (packing.rs, with Hints for the hint vector and Keys for keys and signatures),
--               Rounding, Ntt and Poly (poly.rs and matrix.rs). Packing stores what Rounding computes.
--   Zk          solomon-zk/src: Field (field.rs), Merkle (merkle.rs), Verifier (verifier.rs, with the
--               transcript of challenger.rs and the structs of fri.rs) and Fri (the folding of
--               fri.rs). The verifier opens leaves of Merkle trees, the folding commits to them.
--   Prelude     lists, tests, results, bytes and bits over the native numbers.
--
-- Bytes, characters and machine integers are native numbers. A sum or shift that can wrap has its
-- `% 2 ^ w`; where the operands stay small the file says so. A `BTreeMap` is the list of its entries in
-- ascending order. A function that changes its object takes the old state and returns the new one; an
-- error is a `Result`, and a panic is a value too where the code can reach it. The `match` on a type of
-- field is `ascii_typed` and `bcd_typed`, the loop over fields is `parse_elements` on the count of
-- fields left, and what the clock and the file system do during a command of the logger is a `World`.
--
-- Loops on fuel: `exp_loop` has 64 rounds, and a u64 is zero after 64 halvings; `next_pow2` has as
-- many rounds as there are leaves, and each doubles; `grow` has as many as the padded leaves, and
-- each halves the layer; the folding has as many as there are evaluations. The theorems on `exp`,
-- on the Merkle tree and on the folding include that this is enough.
--
-- Parameters: the digest, JSON texts and floats of an audit record, the signer, the hash of the
-- Merkle tree and the transcript, the reader `from_slice` of a serialized proof, `to_lowercase`,
-- `trim` and the UTF-8 functions of the standard library. `shake` and `token_is_valid` of Heartbeat
-- stand for solomon-core/src/crypto.
--
-- Not modelled: of solomon-core/src/crypto the sampling, the sponge, signing and what clears
-- memory; the prover, its queries and the transforms of solomon-zk, the other monitors of
-- solomon-core/src/audit, the proxy, the TLS tunnel, the HSM, the cloud service, the floating-point model
-- of solomon-core/src/ai; of the logger, its start, the metadata files and the purge above 3650
-- segments; of iso8583.rs, `is_field7_fresh`.
pub mod Audit
pub mod Bcd
pub mod Calendar
pub mod Crypto
pub mod Ebcdic
pub mod Heartbeat
pub mod Iso8583
pub mod Prelude
pub mod Zk
