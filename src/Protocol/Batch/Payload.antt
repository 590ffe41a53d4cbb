-- ===== src/Protocol/Batch/Payload.antt =====
-- The records of a batch, compressed by encodeRecordBatch and decompressed by decodeOneRecordBatch.
use gokafka.Compress.{Codecs, compress, decompress, gunzip, gzip_level}
use gokafka.Compress.Lz4.{lz4_encode}
use gokafka.Compress.Lz4.Literals.{lz4_encode-longer}
use gokafka.Compress.Snappy.{snappy_encode}
use gokafka.Compress.Snappy.RoundTrip.{snappy_encode-longer}
use mathlib.Core.Bool.{true≢false}
use gokafka.Prelude.{
  subst, ℕ, zero, suc, ◌+◌, ◌^◌, ◌≤◌, ◌<◌, ◌≡◌, refl, ◌∙◌, sym, ◌==◌, bit_or, Bool, true, false,
  if◌then◌else◌, List, length, ltb, le→ltb, arith,
}
use gokafka.Prelude.Int.{eqb_ℤ, ℤ, pos, negsuc, to_unsigned}
use gokafka.Protocol.Batch.{compress_as, base_attributes}
use gokafka.Protocol.Batch.Decode.{batch_payload, has_bits}
use gokafka.Result.{unknown_codec, panic, ok-injective, Result, ok, err, bind}

-- What gzip is relied on for: its reader gives back, within the limit, what its writer was given, and its
-- format has at least the four bytes of a magic number.
pub record AreCodecs (lib : Codecs) : Type 0 where
  pub gzip_back :
      (level : ℤ) (src z : List ℕ)
      → lib.deflate level src ≡ ok z
      → length src ≤ lib.max_decompressed
      → lib.inflate (lib.max_decompressed + 1) z ≡ ok src
  pub gzip_size : (level : ℤ) (src z : List ℕ) → lib.deflate level src ≡ ok z → 4 ≤ length z

-- The attributes say what the consumer has to know, and the payload can be read.
pub record Carries (lib : Codecs) (transactional : Bool) (payload : List ℕ) (attributes : ℕ)
    (z : List ℕ) : Type 0 where
  pub small : attributes < 2 ^ 15
  pub control : has_bits attributes 0x20 ≡ false
  pub in_transaction : has_bits attributes 0x10 ≡ transactional
  pub back : batch_payload lib attributes z ≡ ok payload
  pub size : (4 ≤ length payload) → 4 ≤ length z

module _ (lib : Codecs) (payload : List ℕ) where
  plain : (t : Bool) → Carries lib t payload (base_attributes t) payload
  unfolding batch_payload
  plain true = record {
    small = omega arith;
    control = refl;
    in_transaction = refl;
    back = refl;
    size = λ h. h;
  }
  plain false = record {
    small = omega arith;
    control = refl;
    in_transaction = refl;
    back = refl;
    size = λ h. h;
  }

  gzipped :
      (t : Bool) (z : List ℕ)
      → decompress lib (pos 1) z ≡ ok payload
      → 4 ≤ length z
      → Carries lib t payload (bit_or (base_attributes t) (to_unsigned (2 ^ 16) (pos 1))) z
  unfolding batch_payload
  gzipped true z h four = record {
    small = omega arith;
    control = refl;
    in_transaction = refl;
    back = h;
    size = λ l. four;
  }
  gzipped false z h four = record {
    small = omega arith;
    control = refl;
    in_transaction = refl;
    back = h;
    size = λ l. four;
  }

  -- The shorter of two payloads, with its attributes.
  abbrev shorter : ℤ → Bool → List ℕ → ℕ × List ℕ
  shorter codec t z =
      if ltb (length z) (length payload)
      then (bit_or (base_attributes t) (to_unsigned (2 ^ 16) codec), z)
      else (base_attributes t, payload)

  shorter-Carries :
      (codec : ℤ) (t : Bool) (z : List ℕ)
      → Carries lib t payload (bit_or (base_attributes t) (to_unsigned (2 ^ 16) codec)) z
      → Carries lib t payload (shorter codec t z).0 (shorter codec t z).1
  shorter-Carries codec t z h = pick (ltb (length z) (length payload))
    where
      pick :
          (b : Bool)
          → let p : ℕ × List ℕ =
              if b
              then (bit_or (base_attributes t) (to_unsigned (2 ^ 16) codec), z)
              else (base_attributes t, payload) in
            Carries lib t payload p.0 p.1
      pick true = h
      pick false = plain t

  longer :
      (codec : ℤ) (t : Bool) (z : List ℕ)
      → length payload < length z
      → shorter codec t z ≡ (base_attributes t, payload)
  longer codec t z h = rw (le→ltb (length z) (length payload) (omega arith)) refl

gunzip-deflate :
    (lib : Codecs) (level : ℤ) (src z : List ℕ)
    → AreCodecs lib
    → lib.deflate level src ≡ ok z
    → length src ≤ lib.max_decompressed
    → decompress lib (pos 1) z ≡ ok src
unfolding decompress gunzip
gunzip-deflate lib level src z codecs h fits =
    rw (codecs.gzip_back level src z h fits)
      (rw (le→ltb lib.max_decompressed (length src) fits) refl)

compressed :
    (lib : Codecs) (codec : ℤ) (t : Bool) (payload : List ℕ) (p : ℕ × List ℕ) (m : Result (List ℕ))
    → (bind m λ z. ok (shorter lib payload codec t z)) ≡ ok p
    → ((z : List ℕ)
        → m ≡ ok z
        → Carries lib t payload (bit_or (base_attributes t) (to_unsigned (2 ^ 16) codec)) z)
    → Carries lib t payload p.0 p.1
compressed lib codec t payload p (ok z) e k =
    subst (λ q. Carries lib t payload q.0 q.1) (ok-injective e)
      (shorter-Carries lib payload codec t z (k z refl))
compressed lib codec t payload p (err x) e k = cc
compressed lib codec t payload p panic e k = cc

never_shorter :
    (lib : Codecs) (codec : ℤ) (t : Bool) (payload z : List ℕ) (p : ℕ × List ℕ)
    → length payload < length z
    → ok (shorter lib payload codec t z) ≡ ok p
    → Carries lib t payload p.0 p.1
never_shorter lib codec t payload z p h e =
    subst (λ q. Carries lib t payload q.0 q.1)
      (sym (longer lib payload codec t z h) ∙ ok-injective e) (plain lib payload t)

compress_as_unknown :
    (lib : Codecs) (n : ℕ) (level : ℤ) (attributes : ℕ) (payload : List ℕ)
    → compress_as lib (pos (suc (suc (suc (suc (suc n)))))) level attributes payload
      ≡ err unknown_codec
unfolding compress_as
compress_as_unknown lib n level attributes payload =
    let m = suc (suc (suc (suc (suc n)))) in
    let e0 : (m == 0) ≡ false = ground arith in
    let e1 : (m == 1) ≡ false = ground arith in
    let e2 : (m == 2) ≡ false = ground arith in
    let e3 : (m == 3) ≡ false = ground arith in
    let e4 : (m == 4) ≡ false = ground arith in rw (e0, e1, e2, e3, e4) refl

-- What encodeRecordBatch sends as the payload of a batch, whatever the codec but zstd, can be read by
-- the consumer, whose attributes say how.
pub compress_as-Carries :
    (lib : Codecs) (codec level : ℤ) (t : Bool) (payload : List ℕ) (p : ℕ × List ℕ)
    → AreCodecs lib
    → eqb_ℤ codec (pos 4) ≡ false
    → length payload ≤ lib.max_decompressed
    → compress_as lib codec level (base_attributes t) payload ≡ ok p
    → Carries lib t payload p.0 p.1
unfolding compress_as compress
compress_as-Carries lib (negsuc n) level t payload p codecs other fits h = cc
compress_as-Carries lib (pos zero) level t payload p codecs other fits h =
    subst (λ q. Carries lib t payload q.0 q.1) (ok-injective h) (plain lib payload t)
compress_as-Carries lib (pos (suc zero)) level t payload p codecs other fits h =
    compressed lib (pos 1) t payload p (lib.deflate (gzip_level level) payload) h λ z e.
      gzipped lib payload t z (gunzip-deflate lib (gzip_level level) payload z codecs e fits)
        (codecs.gzip_size (gzip_level level) payload z e)
compress_as-Carries lib (pos (suc (suc zero))) level t payload p codecs other fits h =
    never_shorter lib (pos 2) t payload (snappy_encode payload) p (snappy_encode-longer payload) h
compress_as-Carries lib (pos (suc (suc (suc zero)))) level t payload p codecs other fits h =
    never_shorter lib (pos 3) t payload (lz4_encode payload) p (lz4_encode-longer payload) h
compress_as-Carries lib (pos (suc (suc (suc (suc zero))))) level t payload p codecs other fits h =
    absurd (true≢false other)
compress_as-Carries lib (pos (suc (suc (suc (suc (suc n)))))) level t payload p codecs other fits
      h =
    let refused : ok p ≡ err unknown_codec =
      sym h ∙ compress_as_unknown lib n level (base_attributes t) payload in
    cc
