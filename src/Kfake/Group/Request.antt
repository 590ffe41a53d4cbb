-- ===== src/Kfake/Group/Request.antt =====
-- The join request of a client, as the mock broker reads it.
use gokafka.Wire.Varint.{read_uvarint}
use gokafka.Wire.Strings.RoundTrip.{
  read_compact_nullable_string-write, read_compact_bytes-write_compact_bytes,
  read_compact_string-write_compact_string,
}
use gokafka.Wire.Ints.RoundTrip.{read_int32-write_int32, to_unsigned_32-lt}
use gokafka.Wire.Varint.RoundTrip.{read_uvarint_small}
use gokafka.Wire.Ints.{read_int32, write_int32}
use gokafka.Result.{ok}
use gokafka.Wire.Reader.Laws.{Takes-then, Takes-pure, Takes-bind, Takes, Reads}
use gokafka.Wire.Reader.{read_times}
use gokafka.Protocol.Assignment.{encode_consumer_subscription}
use gokafka.Wire.Tags.{write_empty_tag_section}
use gokafka.Wire.Strings.{
  read_compact_nullable_string, read_compact_bytes, read_compact_string,
  write_compact_nullable_string, write_compact_bytes, write_compact_string, write_compact_array_len,
}
use gokafka.Protocol.Groups.Join.{
  default_rebalance_timeout, default_assignor, encode_join_group_request_flex,
  default_session_timeout, str_ptr, encode_join_group_request, JoinGroup,
}
use gokafka.Prelude.Int.{◌+ℤ◌, to_unsigned, to_signed, pos, negsuc, leb_ℤ, IsSigned, ℤ}
use gokafka.Prelude.{
  ltb→lt, ◌/◌, inr, codes, refl, ltb, inl, ◌∷◌, true, some, arith, Bool-cases, ◌≡◌, ◌++◌, [], ◌^◌,
  ◌+◌, ◌<◌, length, ℕ, List,
}
use gokafka.Kfake.Group.{next_generation, default_member, skip_tags, join_request, join_protocol}
use mathlib.Core.Option

-- The strings of a join fit the compact encoding, and its timeouts are int32.
pub record IsJoinable (r : JoinGroup) : Type 0 where
  pub group : length r.group + 1 < 2 ^ 29
  pub member : length r.member_id + 1 < 2 ^ 29
  pub instance_id : length r.instance_id + 1 < 2 ^ 29
  pub assignor : length r.assignor + 1 < 2 ^ 29
  pub session : IsSigned (2 ^ 32) r.session_timeout_ms
  pub rebalance : IsSigned (2 ^ 32) r.rebalance_timeout_ms

instance_fits :
    (id : List ℕ) → length id + 1 < 2 ^ 29 → length (Option.get_or (str_ptr id) []) + 1 < 2 ^ 29
unfolding str_ptr
instance_fits [] h = h
instance_fits (b ∷ id) h = h

pub assignor_fits : (a : List ℕ) → length a + 1 < 2 ^ 29 → length (default_assignor a) + 1 < 2 ^ 29
assignor_fits [] h = omega arith
assignor_fits (b ∷ a) h = h

pub member_fits : (m : List ℕ) → length m + 1 < 2 ^ 29 → length (default_member m) + 1 < 2 ^ 29
member_fits [] h = omega arith
member_fits (b ∷ m) h = h

negative : (n : ℕ) → leb_ℤ (negsuc n) (pos 0) ≡ true
negative n = ground arith

session_fits : (t : ℤ) → IsSigned (2 ^ 32) t → IsSigned (2 ^ 32) (default_session_timeout t)
session_fits (pos n) h = ground arith
session_fits (negsuc n) h = rw (negative n) (let k : 45000 < 2 ^ 31 = omega arith in k)

rebalance_fits :
    (s t : ℤ)
    → IsSigned (2 ^ 32) s
    → IsSigned (2 ^ 32) t
    → IsSigned (2 ^ 32) (default_rebalance_timeout s t)
rebalance_fits s (pos n) h k = elim (Bool-cases (leb_ℤ (pos n) (pos 0))) [
  | inl low ↦ rw low h
  | inr high ↦ rw high k
]
rebalance_fits s (negsuc n) h k = rw (negative n) h

to_signed_in_range : (u : ℕ) → u < 2 ^ 32 → IsSigned (2 ^ 32) (to_signed (2 ^ 32) u)
to_signed_in_range u h = elim (Bool-cases (ltb u (2 ^ 32 / 2))) [
  | inl low ↦ rw low (ltb→lt u (2 ^ 31) low)
  | inr high ↦ rw high (ground (arith, high, h))
]

pub generation_fits : (g : ℤ) → IsSigned (2 ^ 32) (next_generation g)
generation_fits g =
    to_signed_in_range (to_unsigned (2 ^ 32) (g +ℤ pos 1)) (to_unsigned_32-lt (g +ℤ pos 1))

-- What the client writes, its subscription being `meta`.
abbrev pub join_body : JoinGroup → List ℕ → List ℕ
join_body r meta =
    let session = default_session_timeout r.session_timeout_ms in
    write_compact_string r.group
    ++ (write_int32 session
        ++ (write_int32 (default_rebalance_timeout session r.rebalance_timeout_ms)
            ++ (write_compact_string r.member_id
                ++ (write_compact_nullable_string (str_ptr r.instance_id)
                    ++ (write_compact_string (codes "consumer")
                        ++ (write_compact_array_len 1
                            ++ (write_compact_string (default_assignor r.assignor)
                                ++ (write_compact_bytes (some meta)
                                    ++ (write_empty_tag_section ++ write_empty_tag_section)))))))))

pub encode-join_body :
    (r : JoinGroup) (meta : List ℕ)
    → encode_consumer_subscription r.topics r.cooperative ≡ ok meta
    → encode_join_group_request (pos 6) r ≡ ok (join_body r meta)
unfolding encode_join_group_request encode_join_group_request_flex
encode-join_body r meta e = rw e refl

skip_tags-write_empty : Reads skip_tags write_empty_tag_section tt
unfolding skip_tags write_empty_tag_section read_times
skip_tags-write_empty rest = rw (read_uvarint_small 0 rest (omega arith)) refl

Takes-join_protocol :
    (name meta rest : List ℕ)
    → length name + 1 < 2 ^ 29
    → length meta + 1 < 2 ^ 29
    → Takes join_protocol
        (write_compact_string name
          ++ (write_compact_bytes (some meta) ++ (write_empty_tag_section ++ rest)))
        (name, some meta)
        rest
unfolding join_protocol
Takes-join_protocol name meta rest h small =
    Takes-bind read_compact_string _ _ _ name _ _ (read_compact_string-write_compact_string name h)
      (Takes-bind read_compact_bytes _ _ _ (some meta) _ _
        (read_compact_bytes-write_compact_bytes (some meta) small)
        (Takes-bind skip_tags _ _ _ tt _ _ skip_tags-write_empty
          (Takes-pure (name, some meta) rest)))

-- The handler reads what the client wrote.
pub Takes-join_request :
    (r : JoinGroup) (meta : List ℕ)
    → IsJoinable r
    → length meta + 1 < 2 ^ 29
    → Takes join_request
        (join_body r meta)
        (r.group, r.member_id, (default_assignor r.assignor, some meta) ∷ [])
        write_empty_tag_section
unfolding join_request write_compact_array_len read_times
Takes-join_request r meta h small =
    let session = default_session_timeout r.session_timeout_ms in
    let session_h = session_fits r.session_timeout_ms h.session in
    Takes-bind read_compact_string _ _ _ r.group _ _
      (read_compact_string-write_compact_string r.group h.group)
      (Takes-bind read_int32 _ _ _ session _ _ (read_int32-write_int32 session session_h) (
        Takes-bind read_int32 _ _ _ (default_rebalance_timeout session r.rebalance_timeout_ms) _ _
          (read_int32-write_int32 (default_rebalance_timeout session r.rebalance_timeout_ms)
            (rebalance_fits session r.rebalance_timeout_ms session_h h.rebalance))
          (Takes-bind read_compact_string _ _ _ r.member_id _ _
            (read_compact_string-write_compact_string r.member_id h.member)
            (Takes-bind read_compact_nullable_string _ _ _
              (Option.get_or (str_ptr r.instance_id) []) _ _
              (read_compact_nullable_string-write (str_ptr r.instance_id)
                (instance_fits r.instance_id h.instance_id))
              (Takes-bind read_compact_string _ _ _ (codes "consumer") _ _
                (read_compact_string-write_compact_string (codes "consumer") (omega arith))
                (Takes-bind read_uvarint _ _ _ 2 _ _
                  (λ rest. read_uvarint_small 2 rest (omega arith))
                  (Takes-then (read_times 1 join_protocol) _ _ _
                    ((default_assignor r.assignor, some meta) ∷ []) _ _
                    (Takes-then join_protocol _ _ _ (default_assignor r.assignor, some meta) _ _
                      (Takes-join_protocol (default_assignor r.assignor) meta
                        write_empty_tag_section (assignor_fits r.assignor h.assignor) small)
                      (Takes-pure _ _))
                    (Takes-pure _ _))))))))
