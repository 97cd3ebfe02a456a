-- ===== src/Protocol/Frame.antt =====
-- internal/protocol/transfer.go: the fields of a frame that the transfer layer reads, the identifier
-- test, and the decoding of a chunk. A Go string is a `String` each of whose characters is a byte.
-- `Sequence` is a natural number, since `DecodeFrame` refuses a negative one.
use text.Mathlib.Text.{◌==◌ as str_eq}
use onprest.Prelude.{
  ℕ, Bool, false, not, ◌&&◌, ◌||◌, [], ◌∷◌, Option, none, some, String, Bytes, codes, bytes_eq, ltb,
  leb, ◌==◌, if◌then◌else◌, length,
}

pub record Frame : Type 0 where
  pub kind : String
  pub id : String
  pub transfer_id : String
  pub sequence : ℕ
  pub data_base64 : Bytes

abbrev pub chunk_bytes : ℕ
chunk_bytes = 65536

abbrev pub transfer_window : ℕ
transfer_window = 4

abbrev pub connection_window : ℕ
connection_window = 32

unfoldable pub contains_zero : Bytes → Bool
contains_zero [] = false
contains_zero (b ∷ bs) = b == 0 || contains_zero bs

-- `ValidID`; `valid_string` is `utf8.ValidString`.
unfoldable pub valid_id : (Bytes → Bool) → String → Bool
valid_id valid_string id =
    not (str_eq id "")
    && (leb (length (codes id)) 256 && (valid_string (codes id) && not (contains_zero (codes id))))

-- `base64.StdEncoding`, decoding strictly.
pub record Base64 : Type 0 where
  pub encoded_len : ℕ → ℕ
  pub decode_string : Bytes → Option Bytes
  pub encode_to_string : Bytes → Bytes

-- `Frame.Chunk`; `none` is its error.
unfoldable pub chunk : Base64 → Frame → Option Bytes
chunk base64 f =
    if ltb (base64.encoded_len chunk_bytes) (length f.data_base64)
    then none
    else elim (base64.decode_string f.data_base64) [
      | none ↦ none
      | some b ↦
          if length b == 0
            || (ltb chunk_bytes (length b)
                || not (bytes_eq (base64.encode_to_string b) f.data_base64))
          then none
          else some b
    ]

-- `FrameLimit`, the bound on the encoded bytes of a frame.
unfoldable pub frame_limit : String → ℕ
frame_limit kind = if str_eq kind "request_commit" then 16777216 else 1048576
