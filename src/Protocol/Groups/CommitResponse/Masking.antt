-- ===== src/Protocol/Groups/CommitResponse/Masking.antt =====
-- What the second decoding of a legacy OffsetCommit response does to an error code.
use gokafka.Wire.Ints.RoundTrip.{read_int32-write_int32}
use gokafka.Wire.Ints.{write_int32}
use gokafka.Wire.Reader.{read_times}
use gokafka.Wire.Tags.{skip_tag_section}
use gokafka.Wire.Writer.Codes.{run}
use gokafka.Wire.Varint.{read_uvarint_loop, read_uvarint}
use gokafka.Prelude.{
  arith, [], ◌∙◌, ◌%◌, ◌/◌, ap, ◌<◌, true, Bool, refl, ◌∷◌, ◌++◌, if◌then◌else◌, ◌^◌, false, ◌≡◌, ℕ,
  List,
}
use gokafka.Prelude.Int.{to_unsigned, eqb_ℤ, pos, IsSigned, at_least, ℤ}
use gokafka.Result.{panic, err, bind, ok, Result}
use gokafka.Protocol.Groups.CommitResponse.{
  decode_offset_commit_response_legacy, or_else, unless_found, first_code,
  decode_offset_commit_response_flex, decode_offset_commit_response,
}

-- The compact decoder takes the two high bytes of the topic count, both 0, for no topics and no tags.
flex-legacy_body :
    (throttle : ℤ) (rest : List ℕ)
    → IsSigned (2 ^ 32) throttle
    → run decode_offset_commit_response_flex (write_int32 throttle ++ 0 ∷ 0 ∷ rest) ≡ ok (pos 0)
unfolding decode_offset_commit_response_flex first_code unless_found read_uvarint read_uvarint_loop
    skip_tag_section read_times
flex-legacy_body throttle rest h = rw (read_int32-write_int32 throttle h (0 ∷ 0 ∷ rest)) refl

either : (b : Bool) → (if b then ok (pos 0) else ok (pos 0)) ≡ ok (pos 0)
either true = refl
either false = refl

or_masked :
    (m : Result ℤ) (body : List ℕ)
    → run decode_offset_commit_response_flex body ≡ ok (pos 0)
    → bind m (λ code.
      if eqb_ℤ code (pos 0)
      then ok (pos 0)
      else or_else (run decode_offset_commit_response_flex body) code)
      ≡ bind m (λ code. ok (pos 0))
or_masked (ok code) body e = rw e (either (eqb_ℤ code (pos 0)))
or_masked (err x) body e = refl
or_masked panic body e = refl

-- The int32 count of fewer than 65536 topics starts with two zero bytes.
write_int32-small :
    (n : ℕ) → n < 65536 → write_int32 (pos n) ≡ 0 ∷ 0 ∷ (n / 2 ^ 8 % 256) ∷ (n % 256) ∷ []
unfolding write_int32
write_int32-small n h =
    let bits : to_unsigned (2 ^ 32) (pos n) ≡ n = omega arith in
    let third : n / 2 ^ 24 % 256 ≡ 0 = omega arith in
    let second : n / 2 ^ 16 % 256 ≡ 0 = omega arith in rw (bits, third, second) refl

-- From version 3 to version 7, where the body is a throttle time, a count of fewer than 65536 topics and
-- any bytes for the topics, DecodeOffsetCommitResponse returns 0 wherever the legacy decoder succeeds,
-- whatever error code that decoder found, and fails where that decoder fails.
pub decode_offset_commit_response_masks :
    (ver throttle : ℤ) (n : ℕ) (topics : List ℕ)
    → at_least 3 ver ≡ true
    → at_least 8 ver ≡ false
    → IsSigned (2 ^ 32) throttle
    → n < 65536
    → let body = write_int32 throttle ++ (write_int32 (pos n) ++ topics) in
      decode_offset_commit_response ver body
      ≡ bind (run (decode_offset_commit_response_legacy ver) body) (λ code. ok (pos 0))
unfolding decode_offset_commit_response
decode_offset_commit_response_masks ver throttle n topics throttled below h small =
    let body = write_int32 throttle ++ (write_int32 (pos n) ++ topics) in
    rw below (
      or_masked (run (decode_offset_commit_response_legacy ver) body) body (
        ap (λ l. run decode_offset_commit_response_flex (write_int32 throttle ++ (l ++ topics)))
          (write_int32-small n small)
        ∙ flex-legacy_body throttle ((n / 2 ^ 8 % 256) ∷ (n % 256) ∷ topics) h))
