-- ===== src/Produce.antt =====
-- internal/produce/state.go: the sequence numbers of an idempotent producer, per partition.
use gokafka.Prelude.Int.{to_unsigned, eqb_ℤ, ltb_ℤ, ◌-ℤ◌, to_signed, ◌+ℤ◌, ℤ, pos}
use gokafka.Prelude.{◌^◌, ◌&&◌, ℕ, if◌then◌else◌, bytes_eq, List, Bool}
pub mod Laws

-- seqKey
pub record SeqKey : Type 0 where
  pub topic : List ℕ
  pub part : ℤ

unfoldable pub key_eq : SeqKey → SeqKey → Bool
key_eq a b = bytes_eq a.topic b.topic && eqb_ℤ a.part b.part

-- State without its mutex and producer id, which no method here reads: an int32 for each key, 0 where
-- the map has no entry.
abbrev pub Sequences : Type 0
Sequences = SeqKey → ℤ

-- int32 arithmetic wraps.
abbrev pub wrap32 : ℤ → ℤ
wrap32 v = to_signed (2 ^ 32) (to_unsigned (2 ^ 32) v)

abbrev pub put : Sequences → SeqKey → ℤ → Sequences
put s key v k = if key_eq key k then v else s k

unfoldable pub new_state : Sequences
new_state key = pos 0

unfoldable pub reserve_sequence : Sequences → SeqKey → ℤ
reserve_sequence s key = s key

unfoldable pub confirm_sequence : Sequences → SeqKey → Sequences
confirm_sequence s key = put s key (wrap32 (s key +ℤ pos 1))

unfoldable pub reserve_block : Sequences → SeqKey → ℤ → Sequences × ℤ
reserve_block s key count = (put s key (wrap32 (s key +ℤ wrap32 count)), s key)

unfoldable pub rollback_block : Sequences → SeqKey → ℤ → Sequences
rollback_block s key count =
    let v = wrap32 (s key -ℤ wrap32 count) in
    if ltb_ℤ v (pos 0) then put s key (pos 0) else put s key v

unfoldable pub next_sequence : Sequences → SeqKey → Sequences × ℤ
next_sequence s key = (put s key (wrap32 (s key +ℤ pos 1)), s key)

unfoldable pub reset : Sequences → Sequences
reset s = λ key. pos 0
