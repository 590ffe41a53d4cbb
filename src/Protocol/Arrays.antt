-- ===== src/Protocol/Arrays.antt =====
-- The arrays of the messages of internal/protocol: the count with the loop over the elements, as each
-- codec writes them out, and the grouping of items by topic or partition that the request encoders share.
pub mod Grouping
use gokafka.Prelude.{ℕ, ◌-◌, Bool, if◌then◌else◌, List, [], ◌∷◌, ◌++◌, length}
use gokafka.Prelude.Int.{ℤ, pos, leb_ℤ}
use gokafka.Protocol.Assignment.{rounds, int32_of}
use gokafka.Result.{ok}
use gokafka.Wire.Ints.{read_int16, read_int32, write_int32}
use gokafka.Wire.Reader.{Reader, pure, ◌>>=◌, ◌>>◌, read_times}
use gokafka.Wire.Strings.{string_body, write_compact_array_len, write_compact_string}
use gokafka.Wire.Varint.{read_uvarint}
use gokafka.Wire.Writer.{Writer, ◌<+>◌, write_each}

-- `n, err := buf.ReadInt32(); … for i := int32(0); i < n; i++`
unfoldable pub read_array {ℓ} : {A : Type ℓ} → Reader A → Reader (List A)
read_array r = do n ← read_int32; read_times (rounds n) r

-- `n, err := buf.ReadUvarint(); … for i := 1; i < int(n); i++`
unfoldable pub read_compact_array {ℓ} : {A : Type ℓ} → Reader A → Reader (List A)
read_compact_array r = do n ← read_uvarint; read_times (n - 1) r

-- `buf.WriteInt32(int32(len(xs))); for _, x := range xs`
unfoldable pub write_array {ℓ} : {A : Type ℓ} → (A → Writer) → List A → Writer
write_array w xs = ok (write_int32 (int32_of (length xs))) <+> write_each w xs

-- `buf.WriteCompactArrayLen(len(xs)); for _, x := range xs`
unfoldable pub write_compact_array {ℓ} : {A : Type ℓ} → (A → Writer) → List A → Writer
write_compact_array w xs = ok (write_compact_array_len (length xs)) <+> write_each w xs

-- `if cond { if _, err := read(buf); err != nil { return err } }`
abbrev pub skip_when {ℓ} : {A : Type ℓ} → Bool → Reader A → Reader (Unit {0})
skip_when b r = if b then (r >> pure tt) else pure tt

-- `buf.WriteInt32(p)` and `buf.WriteCompactString(t)` as the writes of one element.
abbrev pub write_int32_element : ℤ → Writer
write_int32_element v = ok (write_int32 v)

abbrev pub write_compact_string_element : List ℕ → Writer
write_compact_string_element t = ok (write_compact_string t)

-- readNullableString of metadata.go: a negative length is the empty string.
unfoldable pub read_nullable_string : Reader (List ℕ)
unfolding string_body
read_nullable_string = read_int16 >>= string_body

-- if ver <= 0 { ver = d }
abbrev pub default_version : ℤ → ℤ → ℤ
default_version d ver = if leb_ℤ ver (pos 0) then d else ver

-- `out = append(out, xs...)` over the rounds.
abbrev pub flatten {ℓ} : {A : Type ℓ} → List (List A) → List A
flatten [] = []
flatten (x ∷ xs) = x ++ flatten xs

module _ {ℓ κ} {K : Type ℓ} {R : Type κ} (eq : K → K → Bool) (key : R → K) where
  -- `if _, ok := m[k]; !ok { order = append(order, k) }; m[k] = append(m[k], r)`: the groups in the
  -- order in which their keys came first.
  unfoldable pub add_to_group : R → List (K × List R) → List (K × List R)
  add_to_group r [] = (key r, r ∷ []) ∷ []
  add_to_group r ((k, rs) ∷ groups) =
      let later = (k, rs) ∷ add_to_group r groups in
      if eq k (key r) then (k, rs ++ (r ∷ [])) ∷ groups else later

  unfoldable pub add_all : List R → List (K × List R) → List (K × List R)
  unfolding add_to_group
  add_all [] groups = groups
  add_all (r ∷ rs) groups = add_all rs (add_to_group r groups)

  unfoldable pub group_by : List R → List (K × List R)
  unfolding add_all
  group_by rs = add_all rs []
