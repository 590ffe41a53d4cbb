-- ===== src/Examples/Protocol.antt =====
-- internal/protocol at concrete messages.
use gokafka.Protocol.Groups.CommitResponse.Masking.{decode_offset_commit_response_masks}
use gokafka.Wire.Writer.Codes.{run}
use gokafka.Protocol.Assignment.Subscription.{decode_consumer_subscription-encode}
use gokafka.Wire.Ints.{write_int32}
use gokafka.Protocol.Assignment.RoundTrip.{parse_member_assignment-encode}
use gokafka.Result.{bind, ok}
use gokafka.Protocol.Groups.CommitResponse.{
  decode_offset_commit_response, decode_offset_commit_response_legacy,
}
use gokafka.Prelude.Int.{pos}
use gokafka.Protocol.Keys.Negotiate.{
  negotiate_version-IsHighest, negotiate_version, IsHighest, ApiVersion,
}
use gokafka.Protocol.Assignment.{
  decode_consumer_subscription, encode_consumer_subscription, parse_member_assignment,
  encode_member_assignment, TopicPartitions,
}
use gokafka.Prelude.{◌++◌, true, refl, inl, arith, ◌≡◌, [], ◌∷◌, ℕ, codes, List}

abbrev fetch_range : ApiVersion
fetch_range = record { api_key = pos 1; min_version = pos 4; max_version = pos 17 }

negotiate_version-IsHighest_example :
    IsHighest (pos 4) (pos 17) (pos 12) (negotiate_version (fetch_range ∷ []) (pos 1) (pos 12))
negotiate_version-IsHighest_example =
    negotiate_version-IsHighest (fetch_range ∷ []) (pos 1) (pos 4) (pos 17) (pos 12) (omega arith)
      (omega arith) (inl (refl, refl, refl))

abbrev orders : TopicPartitions
orders = record { topic = codes "orders"; partitions = pos 0 ∷ pos 3 ∷ [] }

parse_member_assignment-encode_example :
    (raw : List ℕ) × (encode_member_assignment (orders ∷ []) ≡ ok raw)
    × (parse_member_assignment raw ≡ ok (orders ∷ []))
parse_member_assignment-encode_example =
    parse_member_assignment-encode (orders ∷ []) (omega arith) (
      record { name = omega arith; count = omega arith; ids = (omega arith, (omega arith, tt)) },
      tt,
    )

-- The topic "t" with partition 0, whose error code is 25.
abbrev one_topic_in_error : List ℕ
one_topic_in_error = 0 ∷ 1 ∷ 116 ∷ 0 ∷ 0 ∷ 0 ∷ 1 ∷ 0 ∷ 0 ∷ 0 ∷ 0 ∷ 0 ∷ 25 ∷ []

-- The legacy decoder finds the code 25, and the caller gets 0.
decode_offset_commit_response_masks_example :
    decode_offset_commit_response
      (pos 7)
      (write_int32 (pos 0) ++ (write_int32 (pos 1) ++ one_topic_in_error))
    ≡ bind
        (run
          (decode_offset_commit_response_legacy (pos 7))
          (write_int32 (pos 0) ++ (write_int32 (pos 1) ++ one_topic_in_error)))
        (λ code. ok (pos 0))
decode_offset_commit_response_masks_example =
    decode_offset_commit_response_masks (pos 7) (pos 0) 1 one_topic_in_error refl refl (omega arith)
      (omega arith)

decode_consumer_subscription-encode_example :
    (raw : List ℕ) × (encode_consumer_subscription (codes "orders" ∷ []) true ≡ ok raw)
    × (decode_consumer_subscription raw ≡ ok (codes "orders" ∷ []))
decode_consumer_subscription-encode_example =
    decode_consumer_subscription-encode (codes "orders" ∷ []) true (omega arith) (omega arith, tt)
