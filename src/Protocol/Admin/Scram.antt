-- ===== src/Protocol/Admin/Scram.antt =====
-- The SCRAM credentials of internal/protocol/admin_scram.go.
use gokafka.Prelude.{List, [], ◌∷◌, ℕ, Option}
use gokafka.Prelude.Int.{ℤ}
use gokafka.Protocol.Arrays.{read_compact_array, write_compact_array}
use gokafka.Result.{ok}
use gokafka.Wire.Ints.{read_int8, read_int16, read_int32, write_int8, write_int32}
use gokafka.Wire.Reader.{Reader, pure, ◌>>=◌, ◌>>◌}
use gokafka.Wire.Strings.{
  read_compact_string, read_compact_nullable_string, write_compact_string, write_compact_bytes,
}
use gokafka.Wire.Tags.{skip_tag_section, write_empty_tag_section}
use gokafka.Wire.Varint.{write_uvarint}
use gokafka.Wire.Writer.{Writer, ◌<+>◌}

pub record ScramUpsertion : Type 0 where
  pub name : List ℕ
  pub mechanism : ℤ
  pub iterations : ℤ
  pub salt : Option (List ℕ)
  pub salted_password : Option (List ℕ)

pub record ScramDeletion : Type 0 where
  pub name : List ℕ
  pub mechanism : ℤ

pub record ScramResult : Type 0 where
  pub user : List ℕ
  pub error_code : ℤ
  pub error_message : List ℕ

pub record ScramCredentialInfo : Type 0 where
  pub mechanism : ℤ
  pub iterations : ℤ

pub record ScramDescription : Type 0 where
  pub user : List ℕ
  pub error_code : ℤ
  pub error_message : List ℕ
  pub credentials : List ScramCredentialInfo

-- No users asks for all.
unfoldable pub write_scram_users : List (List ℕ) → Writer
write_scram_users [] = ok (write_uvarint 0)
write_scram_users (u ∷ users) =
    write_compact_array (λ n. ok (write_compact_string n) <+> ok write_empty_tag_section)
      (u ∷ users)

unfoldable pub encode_describe_user_scram_credentials_request : List (List ℕ) → Writer
unfolding write_scram_users
encode_describe_user_scram_credentials_request users =
    write_scram_users users <+> ok write_empty_tag_section

unfoldable pub read_scram_credential : Reader ScramCredentialInfo
read_scram_credential = do
  mechanism ← read_int8
  iterations ← read_int32
  skip_tag_section
  pure (record { mechanism = mechanism; iterations = iterations })

unfoldable pub read_scram_description : Reader ScramDescription
unfolding read_scram_credential
read_scram_description = do
  user ← read_compact_string
  code ← read_int16
  message ← read_compact_nullable_string
  credentials ← read_compact_array read_scram_credential
  skip_tag_section
  pure (record {
    user = user;
    error_code = code;
    error_message = message;
    credentials = credentials;
  })

unfoldable pub decode_describe_user_scram_credentials_response :
    Reader (ℤ × List ℕ × List ScramDescription)
unfolding read_scram_description
decode_describe_user_scram_credentials_response = do
  read_int32
  code ← read_int16
  message ← read_compact_nullable_string
  out ← read_compact_array read_scram_description
  skip_tag_section
  pure (code, message, out)

unfoldable pub encode_alter_user_scram_credentials_request :
    List ScramDeletion → List ScramUpsertion → Writer
encode_alter_user_scram_credentials_request deletions upsertions =
    write_compact_array
      (λ d.
        ok (write_compact_string (ScramDeletion.name d))
        <+> ok (write_int8 (ScramDeletion.mechanism d))
        <+> ok write_empty_tag_section)
      deletions
    <+> write_compact_array
        (λ u.
          ok (write_compact_string (ScramUpsertion.name u))
          <+> ok (write_int8 (ScramUpsertion.mechanism u))
          <+> ok (write_int32 (ScramUpsertion.iterations u))
          <+> ok (write_compact_bytes (ScramUpsertion.salt u))
          <+> ok (write_compact_bytes (ScramUpsertion.salted_password u))
          <+> ok write_empty_tag_section)
        upsertions
    <+> ok write_empty_tag_section

unfoldable pub read_scram_result : Reader ScramResult
read_scram_result = do
  user ← read_compact_string
  code ← read_int16
  message ← read_compact_nullable_string
  skip_tag_section
  pure (record { user = user; error_code = code; error_message = message })

unfoldable pub decode_alter_user_scram_credentials_response : Reader (List ScramResult)
unfolding read_scram_result
decode_alter_user_scram_credentials_response = do
  read_int32
  out ← read_compact_array read_scram_result
  skip_tag_section
  pure out
