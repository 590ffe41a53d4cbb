-- ===== src/Protocol/Groups/CommitResponse.antt =====
-- DecodeOffsetCommitResponse of internal/protocol/groups.go: a loop that stops at the first error
-- code that is not 0 returns `some` of it.
pub mod Masking
use gokafka.Wire.Varint.{read_uvarint}
use gokafka.Protocol.Assignment.{rounds}
use gokafka.Wire.Tags.{skip_tag_section}
use gokafka.Wire.Strings.{read_string, read_compact_string}
use gokafka.Wire.Ints.{read_int16, read_int32}
use gokafka.Wire.Writer.Codes.{run}
use gokafka.Wire.Reader.{◌>>◌, ◌>>=◌, pure, Reader}
use gokafka.Result.{bind, panic, err, ok, Result}
use gokafka.Prelude.Int.{eqb_ℤ, at_least, pos, ℤ}
use gokafka.Prelude.{◌-◌, zero, suc, some, none, if◌then◌else◌, List, ℕ, Option}

-- if code != 0 { return code, nil }
unfoldable pub unless_found : Option ℤ → Reader (Option ℤ) → Reader (Option ℤ)
unless_found none r = r
unless_found (some code) r = pure (some code)

-- `for j := …; j < n; j++` around one round that may return early.
unfoldable pub first_code : ℕ → Reader (Option ℤ) → Reader (Option ℤ)
first_code zero r = pure none
first_code (suc n) r = do found ← r; unless_found found (first_code n r)

unfoldable pub partition_code_legacy : Reader (Option ℤ)
partition_code_legacy = do
  read_int32
  code ← read_int16
  pure (if eqb_ℤ code (pos 0) then none else some code)

unfoldable pub topic_code_legacy : Reader (Option ℤ)
topic_code_legacy = do read_string; n ← read_int32; first_code (rounds n) partition_code_legacy

abbrev pub code_of : Option ℤ → ℤ
code_of none = pos 0
code_of (some code) = code

unfoldable pub decode_offset_commit_response_legacy : ℤ → Reader ℤ
decode_offset_commit_response_legacy ver = do
  if at_least 3 ver then read_int32 else pure (pos 0)
  n ← read_int32
  found ← first_code (rounds n) topic_code_legacy
  pure (code_of found)

-- The tag section of a partition or topic is skipped only where the loop goes on.
abbrev pub skip_tags_if_none : Option ℤ → Reader (Option ℤ)
skip_tags_if_none found = unless_found found (do skip_tag_section; pure none)

unfoldable pub partition_code_flex : Reader (Option ℤ)
partition_code_flex = do
  read_int32
  code ← read_int16
  skip_tags_if_none (if eqb_ℤ code (pos 0) then none else some code)

unfoldable pub topic_code_flex : Reader (Option ℤ)
topic_code_flex = do
  read_compact_string
  n ← read_uvarint
  found ← first_code (n - 1) partition_code_flex
  skip_tags_if_none found

unfoldable pub decode_offset_commit_response_flex : Reader ℤ
decode_offset_commit_response_flex = do
  read_int32
  n ← read_uvarint
  found ← first_code (n - 1) topic_code_flex
  last ← skip_tags_if_none found
  pure (code_of last)

abbrev pub or_else : Result ℤ → ℤ → Result ℤ
or_else (ok alt) code = ok alt
or_else (err e) code = ok code
or_else panic code = panic

unfoldable pub decode_offset_commit_response : ℤ → List ℕ → Result ℤ
decode_offset_commit_response ver body =
    if at_least 8 ver
    then run decode_offset_commit_response_flex body
    else bind (run (decode_offset_commit_response_legacy ver) body) λ code.
      if eqb_ℤ code (pos 0)
      then ok (pos 0)
      else or_else (run decode_offset_commit_response_flex body) code
