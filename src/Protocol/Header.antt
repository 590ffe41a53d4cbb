-- ===== src/Protocol/Header.antt =====
-- internal/protocol/header.go: the frame and the header of a request and of a response.
use gokafka.Wire.Reader.{pure, ◌>>◌}
use gokafka.Wire.Tags.{skip_tag_section, write_empty_tag_section}
use gokafka.Wire.Ints.{patch_length, big_endian, write_int32, write_int16, read_int32}
use gokafka.Wire.Writer.Codes.{run}
use gokafka.Wire.Writer.{◌<+>◌, Writer}
use gokafka.Result.{panic, short_buffer, err, ok, bind, Result}
use gokafka.Wire.Strings.{write_string}
use gokafka.Protocol.Keys.Flex.{flexible_response_header, flexible_request_header}
use gokafka.Prelude.Int.{negsuc, at_least, to_signed, pos, ℤ}
use gokafka.Prelude.{drop, take, ◌^◌, ◌+◌, replicate, length, ltb, ℕ, if◌then◌else◌, List}

pub record RequestHeader : Type 0 where
  pub api_key : ℤ
  pub api_version : ℤ
  pub correlation_id : ℤ
  pub client_id : List ℕ

unfoldable pub request_header_version : ℤ → ℤ → ℤ
unfolding flexible_request_header
request_header_version key version = if flexible_request_header key version then pos 2 else pos 1

-- The four bytes in front hold the length once patch_length has run.
unfoldable pub encode_request : RequestHeader → List ℕ → Writer
unfolding request_header_version write_string
encode_request h body =
    bind
      (ok (replicate 4 0)
        <+> ok (write_int16 h.api_key)
        <+> ok (write_int16 h.api_version)
        <+> ok (write_int32 h.correlation_id)
        <+> (if at_least 2 (request_header_version h.api_key h.api_version)
            then write_string h.client_id <+> ok write_empty_tag_section
            else write_string h.client_id)
        <+> ok body)
      λ out. ok (patch_length out)

-- raw[4:4+size] for the int32 in front. A negative size passes the guard, and the slice, whose end is
-- below 4, panics.
unfoldable pub frame_body : List ℕ → Result (List ℕ)
frame_body raw =
    if ltb (length raw) 8
    then err short_buffer
    else elim (to_signed (2 ^ 32) (big_endian (take 4 raw))) [
      | pos size ↦
          if ltb (length raw) (4 + size) then err short_buffer else ok (take size (drop 4 raw))
      | negsuc n ↦ panic
    ]

unfoldable pub decode_response_header : List ℕ → Result (ℤ × ℕ)
decode_response_header raw =
    bind (frame_body raw) λ body. bind (run read_int32 body) λ id. ok (id, 4 + length body)

unfoldable pub response_body_for_api : List ℕ → ℤ → ℤ → Result (List ℕ)
response_body_for_api raw key version = bind (frame_body raw) λ body.
    bind
      ((do read_int32; if flexible_response_header key version then skip_tag_section else pure tt)
        body)
      λ (u, rest). ok rest

unfoldable pub response_body : List ℕ → Result (List ℕ)
response_body raw = response_body_for_api raw (pos 0) (pos 0)
