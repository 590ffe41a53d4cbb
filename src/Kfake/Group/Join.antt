-- ===== src/Kfake/Group/Join.antt =====
-- A client joins a group of the mock broker: the client's encoder, the broker's handler and the client's
-- decoder fit together.
use gokafka.Kfake.Group.Request.{
  IsJoinable, assignor_fits, Takes-join_request, generation_fits, join_body, encode-join_body,
  member_fits,
}
use gokafka.Wire.Varint.RoundTrip.{read_uvarint_small}
use gokafka.Wire.Tags.Laws.{skip_tag_section-write_empty}
use gokafka.Wire.Varint.{read_uvarint}
use gokafka.Wire.Strings.RoundTrip.{
  read_compact_bytes-write_compact_bytes, read_compact_nullable_string-write,
  read_compact_string-write_compact_string,
}
use gokafka.Wire.Writer.Codes.{run}
use gokafka.Wire.Tags.{skip_tag_section, write_empty_tag_section}
use gokafka.Wire.Ints.RoundTrip.{read_int16-write_int16, read_int32-write_int32}
use gokafka.Result.{bind, ok}
use gokafka.Protocol.Assignment.{encode_consumer_subscription}
use gokafka.Wire.Strings.{
  read_compact_bytes, read_compact_nullable_string, read_compact_string, write_compact_bytes,
  write_compact_nullable_string, write_compact_string, write_compact_array_len,
}
use gokafka.Wire.Reader.Laws.{Takes-pure, Takes-then, Takes-bind, Takes, Reads}
use gokafka.Wire.Ints.{read_int16, read_int32, write_int16, write_int32}
use gokafka.Prelude.{
  refl, bytes_eq_refl, arith, ◌∙◌, ◌≡◌, append-nil, sym, none, ◌^◌, ap, ◌∷◌, ◌<◌, ◌++◌, [], ◌+◌,
  some, length, ℕ, List,
}
use gokafka.Wire.Reader.{read_times, Reader}
use gokafka.Protocol.Groups.Join.{
  check_join_code, default_assignor, encode_join_group_request, JoinGroup, JoinGroupResponse,
  read_joined_flex, decode_join_group_response_flex, read_member_flex, decode_join_group_response,
}
use gokafka.Prelude.Int.{IsSigned, pos, ℤ}
use gokafka.Kfake.Group.{
  joining, default_member, group_of, next_generation, Groups, join_response, join_member,
  handle_join_group,
}

abbrev response_body : ℤ → List ℕ → List ℕ → List ℕ → List ℕ
response_body generation assignor member meta =
    write_int32 (pos 0)
    ++ (write_int16 (pos 0)
        ++ (write_int32 generation
            ++ (write_compact_string assignor
                ++ (write_compact_string member
                    ++ (write_compact_string member
                        ++ (write_compact_array_len 1
                            ++ (write_compact_string member
                                ++ (write_compact_nullable_string none
                                    ++ (write_compact_bytes (some meta)
                                        ++ (write_empty_tag_section
                                            ++ write_empty_tag_section))))))))))

Takes-last {ℓ} : {A : Type ℓ} (r : Reader A) (e : List ℕ) (a : A) → Reads r e a → Takes r e a []
Takes-last r e a h = record { done = ap r (sym (append-nil e)) ∙ h [] }

Takes-read_member_flex :
    (member meta rest : List ℕ)
    → length member + 1 < 2 ^ 29
    → length meta + 1 < 2 ^ 29
    → Takes
        (read_member_flex (pos 6))
        (write_compact_string member
          ++ (write_compact_nullable_string none
              ++ (write_compact_bytes (some meta) ++ (write_empty_tag_section ++ rest))))
        (member, some meta)
        rest
unfolding read_member_flex
Takes-read_member_flex member meta rest h small =
    Takes-bind read_compact_string _ _ _ member _ _
      (read_compact_string-write_compact_string member h)
      (Takes-bind read_compact_nullable_string _ _ _ [] _ _
        (read_compact_nullable_string-write none (omega arith))
        (Takes-bind read_compact_bytes _ _ _ (some meta) _ _
          (read_compact_bytes-write_compact_bytes (some meta) small)
          (Takes-bind skip_tag_section _ _ _ tt _ _ skip_tag_section-write_empty
            (Takes-pure (member, some meta) rest))))

-- What the client reads: it is the leader and the only member.
abbrev pub alone : ℤ → List ℕ → List ℕ → List ℕ → JoinGroupResponse
alone generation assignor member meta = record {
  generation_id = generation;
  member_id = member;
  leader_id = member;
  protocol_name = assignor;
  assignments = (member, some meta) ∷ [];
}

Takes-join_response :
    (generation : ℤ) (assignor member meta : List ℕ)
    → IsSigned (2 ^ 32) generation
    → length assignor + 1 < 2 ^ 29
    → length member + 1 < 2 ^ 29
    → length meta + 1 < 2 ^ 29
    → Takes
        (decode_join_group_response (pos 6))
        (response_body generation assignor member meta)
        (alone generation assignor member meta, none)
        []
unfolding decode_join_group_response decode_join_group_response_flex read_joined_flex
    write_compact_array_len read_times
Takes-join_response generation assignor member meta g a m small =
    Takes-bind read_int32 _ _ _ (pos 0) _ _ (read_int32-write_int32 (pos 0) (omega arith)) (
      Takes-bind read_int16 _ _ _ (pos 0) _ _ (read_int16-write_int16 (pos 0) (omega arith)) (
        Takes-then (check_join_code (pos 0)) (λ u. read_joined_flex (pos 6) (pos 0)) _ _ tt _ _
          (Takes-pure tt _)
          (Takes-bind read_int32 _ _ _ generation _ _ (read_int32-write_int32 generation g) (
            Takes-bind read_compact_string _ _ _ assignor _ _
              (read_compact_string-write_compact_string assignor a)
              (Takes-bind read_compact_string _ _ _ member _ _
                (read_compact_string-write_compact_string member m)
                (Takes-bind read_compact_string _ _ _ member _ _
                  (read_compact_string-write_compact_string member m)
                  (Takes-bind read_uvarint _ _ _ 2 _ _
                    (λ rest. read_uvarint_small 2 rest (omega arith))
                    (Takes-then (read_times 1 (read_member_flex (pos 6))) _ _ _
                      ((member, some meta) ∷ []) _ _
                      (Takes-then (read_member_flex (pos 6)) _ _ _ (member, some meta) _ _
                        (Takes-read_member_flex member meta write_empty_tag_section m small)
                        (Takes-pure _ _))
                      (Takes-then skip_tag_section _ _ _ tt _ _
                        (Takes-last skip_tag_section write_empty_tag_section tt
                          skip_tag_section-write_empty)
                        (Takes-pure _ _))))))))))

-- A client joins a group of the mock broker at version 6, with strings that fit the compact encoding: the
-- request is encoded, the broker answers, and the client reads the next generation, itself as leader
-- and only member, its assignor and its subscription; the broker keeps the same for the group, and the
-- group's offsets.
pub join_round_trip :
    (groups : Groups) (r : JoinGroup) (meta : List ℕ)
    → IsJoinable r
    → length meta + 1 < 2 ^ 29
    → encode_consumer_subscription r.topics r.cooperative ≡ ok meta
    → (body out : List ℕ) × (encode_join_group_request (pos 6) r ≡ ok body)
      × ((handle_join_group groups body).1 ≡ ok out)
      × (run (decode_join_group_response (pos 6)) out
          ≡ ok (
            alone
                (next_generation (group_of groups r.group).generation)
                (default_assignor r.assignor)
                (default_member r.member_id)
                meta,
            none,
          ))
      × ((handle_join_group groups body).0 r.group
          ≡ some (record {
            offsets = (group_of groups r.group).offsets;
            member_id = default_member r.member_id;
            metadata = some meta;
            assignor = default_assignor r.assignor;
            generation = next_generation (group_of groups r.group).generation;
          }))
unfolding handle_join_group join_member join_response
join_round_trip groups r meta h small e =
    let gen = next_generation (group_of groups r.group).generation in
    let heard = (Takes-join_request r meta h small).done in
    let read =
      (Takes-join_response gen (default_assignor r.assignor) (default_member r.member_id) meta
        (generation_fits (group_of groups r.group).generation) (assignor_fits r.assignor h.assignor)
        (member_fits r.member_id h.member) small).done in
    (
      join_body r meta,
      response_body gen (default_assignor r.assignor) (default_member r.member_id) meta,
      encode-join_body r meta e,
      ap (λ m. (joining groups (bind m λ (x, rest). ok x)).1) heard,
      ap (λ m. bind m λ (x, rest). ok x) read,
      ap (λ m. (joining groups (bind m λ (x, rest). ok x)).0 r.group) heard
          ∙ rw (bytes_eq_refl r.group) refl,
    )
