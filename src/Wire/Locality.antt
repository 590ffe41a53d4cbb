-- ===== src/Wire/Locality.antt =====
-- Every read method of the buffer is local: the rules for the codecs above.
use gokafka.Prelude.{
  ℕ, zero, suc, ◌≡◌, List, [], ◌∷◌, ◌++◌, ap, refl, ◌==◌, ltb, bit_or, bit_and, ◌*◌, ◌^◌, ◌+◌,
  Bool-cases, inl, inr, Bool, true, false, ◌&&◌, if◌then◌else◌,
}
use gokafka.Prelude.Int.{ℤ, pos, negsuc}
use gokafka.Result.{ok, err, uvarint_overflow, Result}
use gokafka.Wire.Reader.Local.{
  IsLocal, IsLocal-pure, IsLocal-bind, IsLocal-if, IsLocal-read_raw, IsLocal-read_times,
  local_rules,
}
use gokafka.Wire.Ints.{
  read_int8, read_int16, read_int32, read_int64, read_bool, read_float64, read_uuid,
}
use gokafka.Wire.Varint.{read_uvarint_loop, read_uvarint, read_varint}
use gokafka.Wire.Strings.{
  read_string, read_bytes, string_body, bytes_body, read_compact_string,
  read_compact_nullable_string, read_compact_nullable_string_ptr, read_compact_bytes,
}
use gokafka.Wire.Tags.{skip_tag, skip_tag_section}

pub IsLocal-read_int8 : IsLocal read_int8
unfolding read_int8
IsLocal-read_int8 = search local_rules

pub IsLocal-read_int16 : IsLocal read_int16
unfolding read_int16
IsLocal-read_int16 = search local_rules

pub IsLocal-read_int32 : IsLocal read_int32
unfolding read_int32
IsLocal-read_int32 = search local_rules

pub IsLocal-read_int64 : IsLocal read_int64
unfolding read_int64
IsLocal-read_int64 = search local_rules

pub IsLocal-read_bool : IsLocal read_bool
unfolding read_bool
IsLocal-read_bool = search (local_rules, IsLocal-read_int8)

pub IsLocal-read_float64 : IsLocal read_float64
unfolding read_float64
IsLocal-read_float64 = search local_rules

pub IsLocal-read_uuid : IsLocal read_uuid
unfolding read_uuid
IsLocal-read_uuid = search local_rules

last_byte :
    (b : Bool) (v a : ℕ) (rest s' : List ℕ)
    → if◌then◌else◌ {A = Result (ℕ × List ℕ)} b (err uvarint_overflow) (ok (v, rest)) ≡ ok (a, s')
    → (b ≡ false) × (v ≡ a) × (rest ≡ s')
last_byte true v a rest s' h = cc
last_byte false v a rest s' h = (refl, cc, cc)

IsLocal-read_uvarint_loop : (left x s : ℕ) → IsLocal (read_uvarint_loop left x s)
unfolding read_uvarint_loop
IsLocal-read_uvarint_loop zero x s = record { at = λ bs s' a h. cc }
IsLocal-read_uvarint_loop (suc left) x s = record { at = step (IsLocal-read_uvarint_loop left) }
  where
    step :
        ((x' s'' : ℕ) → IsLocal (read_uvarint_loop left x' s''))
        → (bs s' : List ℕ) (a : ℕ) → read_uvarint_loop (suc left) x s bs ≡ ok (a, s')
        → (used : List ℕ) × (bs ≡ used ++ s')
          × ((t : List ℕ) → read_uvarint_loop (suc left) x s (used ++ t) ≡ ok (a, t))
    step ih [] s' a h = cc
    step ih (c ∷ rest) s' a h = elim (Bool-cases (ltb c 0x80)) [
      | inl last ↦
          let (e, p, q) =
            last_byte ((left == 0) && ltb 1 c) (bit_or x (c * 2 ^ s)) a rest s' (rw last at h) in
          (c ∷ [], ap (λ l. c ∷ l) q, λ t. rw (last, e, p))
      | inr more ↦
          let (u, p, k) =
            (ih (bit_or x (bit_and c 0x7f * 2 ^ s)) (s + 7)).at rest s' a (rw more at h) in
          (c ∷ u, ap (λ l. c ∷ l) p, λ t. rw more (k t))
    ]

pub IsLocal-read_uvarint : IsLocal read_uvarint
unfolding read_uvarint
IsLocal-read_uvarint = IsLocal-read_uvarint_loop 5 0 0

pub IsLocal-read_varint : IsLocal read_varint
unfolding read_varint
IsLocal-read_varint = search (local_rules, IsLocal-read_uvarint)

pub IsLocal-string_body : (n : ℤ) → IsLocal (string_body n)
unfolding string_body
IsLocal-string_body (pos n) = search local_rules
IsLocal-string_body (negsuc n) = search local_rules

IsLocal-bytes_body : (n : ℤ) → IsLocal (bytes_body n)
unfolding bytes_body
IsLocal-bytes_body (pos n) = search local_rules
IsLocal-bytes_body (negsuc n) = search local_rules

pub IsLocal-read_string : IsLocal read_string
unfolding read_string
IsLocal-read_string = IsLocal-bind read_int16 string_body IsLocal-read_int16 IsLocal-string_body

pub IsLocal-read_bytes : IsLocal read_bytes
unfolding read_bytes
IsLocal-read_bytes = IsLocal-bind read_int32 bytes_body IsLocal-read_int32 IsLocal-bytes_body

pub IsLocal-read_compact_string : IsLocal read_compact_string
unfolding read_compact_string
IsLocal-read_compact_string = search (local_rules, IsLocal-read_uvarint)

pub IsLocal-read_compact_nullable_string : IsLocal read_compact_nullable_string
unfolding read_compact_nullable_string
IsLocal-read_compact_nullable_string = search (local_rules, IsLocal-read_uvarint)

pub IsLocal-read_compact_nullable_string_ptr : IsLocal read_compact_nullable_string_ptr
unfolding read_compact_nullable_string_ptr
IsLocal-read_compact_nullable_string_ptr = search (local_rules, IsLocal-read_uvarint)

pub IsLocal-read_compact_bytes : IsLocal read_compact_bytes
unfolding read_compact_bytes
IsLocal-read_compact_bytes = search (local_rules, IsLocal-read_uvarint)

IsLocal-skip_tag : IsLocal skip_tag
unfolding skip_tag
IsLocal-skip_tag = search (local_rules, IsLocal-read_uvarint)

pub IsLocal-skip_tag_section : IsLocal skip_tag_section
unfolding skip_tag_section
IsLocal-skip_tag_section = search (local_rules, IsLocal-read_uvarint, IsLocal-skip_tag)

pub ruleset reader_rules = (
  local_rules, IsLocal-read_int8, IsLocal-read_int16, IsLocal-read_int32, IsLocal-read_int64,
  IsLocal-read_bool, IsLocal-read_float64, IsLocal-read_uuid, IsLocal-read_uvarint,
  IsLocal-read_varint, IsLocal-read_string, IsLocal-read_bytes, IsLocal-read_compact_string,
  IsLocal-read_compact_nullable_string, IsLocal-read_compact_nullable_string_ptr,
  IsLocal-read_compact_bytes, IsLocal-skip_tag_section,
)
