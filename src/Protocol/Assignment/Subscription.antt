-- ===== src/Protocol/Assignment/Subscription.antt =====
-- The subscription of a member is read back by the leader.
use gokafka.Wire.Ints.RoundTrip.{read_int16-write_int16, read_int32-write_int32}
use gokafka.Wire.Strings.{write_bytes, write_string, read_string}
use gokafka.Result.{bind, ok}
use gokafka.Wire.Writer.Codes.{Codes-each, Codes-string, run, Codes}
use gokafka.Wire.Reader.{read_times}
use gokafka.Wire.Reader.Laws.{Takes-bind, Takes, Reads}
use gokafka.Prelude.Int.{pos, IsSigned, ℤ}
use gokafka.Wire.Ints.{read_int16, write_int32, read_int32, write_int16}
use gokafka.Protocol.Assignment.{
  int32_of, subscription, encode_consumer_subscription, decode_consumer_subscription,
}
use gokafka.Prelude.{
  false, true, ap, ◌∙◌, [], none, arith, ◌∷◌, refl, if◌then◌else◌, ◌≡◌, ◌≤◌, ◌++◌, ◌^◌, length, ◌<◌,
  Bool, All, ℕ, List,
}

Codes-topics :
    (topics : List (List ℕ))
    → All (λ t. length t ≤ 32767) topics
    → All (λ t. Codes read_string (write_string t) t) topics
Codes-topics [] h = tt
Codes-topics (t ∷ topics) h = (Codes-string t h.0, Codes-topics topics h.1)

decode-nonempty :
    (v : ℤ) (w : List ℕ)
    → decode_consumer_subscription (write_int16 v ++ w) ≡ run subscription (write_int16 v ++ w)
unfolding decode_consumer_subscription write_int16
decode-nonempty v w = refl

-- The count of a list, as Codes-count reads it.
counted : (n : ℕ) → n < 2 ^ 31 → Reads read_int32 (write_int32 (int32_of n)) (pos n)
counted n h = rw (let e : int32_of n ≡ pos n = ground arith in e) (read_int32-write_int32 (pos n) h)

Takes-subscription :
    (v : ℤ) (topics : List (List ℕ)) (bytes : List ℕ)
    → IsSigned (2 ^ 16) v
    → length topics < 2 ^ 31
    → Reads (read_times (length topics) read_string) bytes topics
    → Takes subscription
        (write_int16 v ++ (write_int32 (int32_of (length topics)) ++ (bytes ++ write_bytes none)))
        topics
        (write_bytes none)
unfolding subscription
Takes-subscription v topics bytes h small k =
    Takes-bind read_int16 _ _ _ v _ _ (read_int16-write_int16 v h) (
      Takes-bind read_int32 _ _ _ (pos (length topics)) _ _ (counted (length topics) small)
        record { done = k (write_bytes none) })

-- EncodeConsumerSubscription succeeds on fewer than 2^31 topics whose names are at most 32767 bytes long, and
-- DecodeConsumerSubscription returns the same topics from the bytes, cooperative or not.
pub decode_consumer_subscription-encode :
    (topics : List (List ℕ)) (cooperative : Bool)
    → length topics < 2 ^ 31
    → All (λ t. length t ≤ 32767) topics
    → (raw : List ℕ) × (encode_consumer_subscription topics cooperative ≡ ok raw)
      × (decode_consumer_subscription raw ≡ ok topics)
unfolding encode_consumer_subscription
decode_consumer_subscription-encode topics cooperative small names =
    let c = Codes-each read_string write_string topics (Codes-topics topics names) in
    let v : ℤ = if cooperative then pos 3 else pos 0 in
    let rest : List ℕ = write_int32 (int32_of (length topics)) ++ (c.bytes ++ write_bytes none) in
    (
      write_int16 v ++ rest,
      rw c.written (version cooperative rest),
      decode-nonempty v rest
          ∙ ap (λ m. bind m λ (x, r). ok x)
              (Takes-subscription v topics c.bytes (version_fits cooperative) small c.reads).done,
    )
  where
    version :
        (b : Bool) (rest : List ℕ)
        → (ok ((if b then write_int16 (pos 3) else write_int16 (pos 0)) ++ rest))
          ≡ ok (write_int16 (if b then pos 3 else pos 0) ++ rest)
    version true rest = refl
    version false rest = refl

    version_fits : (b : Bool) → IsSigned (2 ^ 16) (if b then pos 3 else pos 0)
    version_fits true = omega arith
    version_fits false = omega arith
