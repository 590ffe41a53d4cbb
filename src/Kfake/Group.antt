-- ===== src/Kfake/Group.antt =====
-- kfake/groups.go: the group handlers of the mock broker, which keeps one member for each group. A
-- handler returns the store with the response.
use gokafka.Wire.Writer.{◌<+>◌, Writer}
use gokafka.Wire.Varint.{read_uvarint}
use gokafka.Wire.Tags.{write_empty_tag_section}
use gokafka.Wire.Strings.{
  write_compact_nullable_string, write_compact_bytes, write_compact_array_len, write_compact_string,
  read_compact_nullable_string, read_compact_bytes, read_compact_string,
}
use gokafka.Wire.Ints.{write_int16, read_int32, write_int32}
use gokafka.Wire.Writer.Codes.{run}
use gokafka.Wire.Reader.{read_times, pure, ◌>>◌, ◌>>=◌, Reader}
use gokafka.Result.{panic, err, ok, bind, Result}
use gokafka.Prelude.Int.{◌+ℤ◌, to_unsigned, pos, to_signed, ℤ}
use gokafka.Prelude.{
  drop, ◌-◌, ◌++◌, ◌∷◌, some, bytes_eq, ◌^◌, if◌then◌else◌, codes, Option, ℕ, [], none, List,
}
pub mod Request
pub mod Join
use mathlib.Core.Option

-- groupState
pub record GroupState : Type 0 where
  pub offsets : List ℕ → ℤ → Option ℤ
  pub member_id : List ℕ
  pub metadata : Option (List ℕ)
  pub assignor : List ℕ
  pub generation : ℤ

-- store.groups
abbrev pub Groups : Type 0
Groups = List ℕ → Option GroupState

abbrev pub new_group : GroupState
new_group = record {
  offsets = λ topic part. none;
  member_id = [];
  metadata = none;
  assignor = [];
  generation = pos 0;
}

-- store.group, before the new state is put in the map.
unfoldable pub group_of : Groups → List ℕ → GroupState
group_of groups id = Option.get_or (groups id) new_group

abbrev pub put_group : Groups → List ℕ → GroupState → Groups
put_group groups id g k = if bytes_eq id k then some g else groups k

-- buf.I += int(sz), which may pass the end; every read behind it is of at least one byte, and fails.
abbrev pub seek : ℕ → Reader (Unit {0})
seek n s = ok (tt, drop n s)

unfoldable pub skip_tags : Reader (Unit {0})
skip_tags = do
  n ← read_uvarint
  read_times n (do read_uvarint; size ← read_uvarint; seek size)
  pure tt

unfoldable pub join_protocol : Reader (List ℕ × Option (List ℕ))
join_protocol = do name ← read_compact_string; m ← read_compact_bytes; skip_tags; pure (name, m)

-- The fields of the request that the handler keeps: group, member id, protocols.
unfoldable pub join_request : Reader (List ℕ × List ℕ × List (List ℕ × Option (List ℕ)))
unfolding join_protocol
join_request = do
  group ← read_compact_string
  read_int32
  read_int32
  member_id ← read_compact_string
  read_compact_nullable_string
  read_compact_string
  n ← read_uvarint
  protocols ← read_times (n - 1) join_protocol
  pure (group, member_id, protocols)

-- if i == 1 { assignor, meta = name, m }
abbrev pub first_protocol : List (List ℕ × Option (List ℕ)) → List ℕ × Option (List ℕ)
first_protocol [] = ([], none)
first_protocol (p ∷ protocols) = p

abbrev pub default_member : List ℕ → List ℕ
default_member [] = codes "kfake-member-1"
default_member (b ∷ id) = b ∷ id

unfoldable pub join_response : ℤ → List ℕ → List ℕ → Option (List ℕ) → Writer
join_response generation assignor member_id meta =
    ok (write_int32 (pos 0))
    <+> ok (write_int16 (pos 0))
    <+> ok (write_int32 generation)
    <+> ok (write_compact_string assignor)
    <+> ok (write_compact_string member_id)
    <+> ok (write_compact_string member_id)
    <+> ok (write_compact_array_len 1)
    <+> ok (write_compact_string member_id)
    <+> ok (write_compact_nullable_string none)
    <+> ok (write_compact_bytes meta)
    <+> ok write_empty_tag_section
    <+> ok write_empty_tag_section

-- g.generation++ on an int32.
abbrev pub next_generation : ℤ → ℤ
next_generation g = to_signed (2 ^ 32) (to_unsigned (2 ^ 32) (g +ℤ pos 1))

unfoldable pub join_member :
    Groups → List ℕ → List ℕ → List ℕ × Option (List ℕ) → Groups × Result (List ℕ)
unfolding group_of join_response
join_member groups group member_id (assignor, meta) =
    let g = group_of groups group in
    let member = default_member member_id in
    let gen = next_generation g.generation in
    (
      put_group groups group
          (record g { member_id = member; metadata = meta; assignor = assignor; generation = gen }),
      join_response gen assignor member meta,
    )

abbrev pub joining :
    Groups → Result (List ℕ × List ℕ × List (List ℕ × Option (List ℕ))) → Groups × Result (List ℕ)
joining groups (ok (group, member_id, protocols)) =
    join_member groups group member_id (first_protocol protocols)
joining groups (err e) = (groups, err e)
joining groups panic = (groups, panic)

unfoldable pub handle_join_group : Groups → List ℕ → Groups × Result (List ℕ)
unfolding join_request join_member
handle_join_group groups body = joining groups (run join_request body)

unfoldable pub sync_assignment : Reader (List ℕ × Option (List ℕ))
sync_assignment = do mid ← read_compact_string; a ← read_compact_bytes; skip_tags; pure (mid, a)

-- The last assignment for the member.
abbrev pub assignment_of :
    List ℕ → Option (List ℕ) → List (List ℕ × Option (List ℕ)) → Option (List ℕ)
assignment_of member_id found [] = found
assignment_of member_id found (a ∷ rest) =
    assignment_of member_id (if bytes_eq a.0 member_id then a.1 else found) rest

-- The member id, the protocol name and the assignments.
unfoldable pub sync_request : Reader (List ℕ × List ℕ × List (List ℕ × Option (List ℕ)))
unfolding sync_assignment
sync_request = do
  read_compact_string
  read_int32
  member_id ← read_compact_string
  read_compact_nullable_string
  read_compact_string
  name ← read_compact_string
  n ← read_uvarint
  assignments ← read_times (n - 1) sync_assignment
  pure (member_id, name, assignments)

unfoldable pub handle_sync_group : List ℕ → Result (List ℕ)
unfolding sync_request
handle_sync_group body = bind (run sync_request body) λ (member_id, name, assignments).
    ok (write_int32 (pos 0))
    <+> ok (write_int16 (pos 0))
    <+> ok (write_compact_string (codes "consumer"))
    <+> ok (write_compact_string name)
    <+> ok (write_compact_bytes (assignment_of member_id none assignments))
    <+> ok write_empty_tag_section

unfoldable pub handle_heartbeat : List ℕ → Result (List ℕ)
handle_heartbeat body = ok (write_int32 (pos 0) ++ write_int16 (pos 0) ++ write_empty_tag_section)

abbrev pub clear_member : Groups → List ℕ → Option GroupState → Groups
clear_member groups group none = groups
clear_member groups group (some g) = put_group groups group (record g { member_id = [] })

-- A body whose group cannot be read is answered all the same.
abbrev pub leaving : Groups → Result (List ℕ) → Groups
leaving groups (ok group) = clear_member groups group (groups group)
leaving groups (err e) = groups
leaving groups panic = groups

unfoldable pub handle_leave_group : Groups → List ℕ → Groups × Result (List ℕ)
handle_leave_group groups body = (
  leaving groups (run read_compact_string body),
  ok (write_int32 (pos 0) ++ write_int16 (pos 0) ++ write_empty_tag_section),
)
