-- ===== src/Proxy/Grpc.antt =====
-- server/src/proxy.rs: `percent_encode_grpc_message` and `proxy_error_response`.
pub mod Encoding
pub mod Response
use Prim.Native.String.{◌++◌}
use spark_plug.Common.{
  ℕ, zero, suc, ◌-◌, ◌/◌, ◌%◌, ◌+◌, String, Bool, Option, none, some, List, [], ◌∷◌, ◌++◌ as append,
  ◌&&◌, not, leb, ltb, ◌==◌, nat_eq, if◌then◌else◌, unwrap_or,
}
use spark_plug.Text.{bytes}
use spark_plug.Application.{State, launching}
use spark_plug.Error

-- A byte that `' '..='~'` covers and that is not `%`.
is_plain : ℕ → Bool
is_plain byte = leb b' ' byte && leb byte b'~' && not (byte == b'%')

-- One upper-case hexadecimal digit.
hex : ℕ → ℕ
hex d = if ltb d 10 then b'0' + d else b'A' + (d - 10)

encode_byte : ℕ → List ℕ
unfolding is_plain hex
encode_byte byte =
    if is_plain byte then byte ∷ [] else b'%' ∷ hex (byte / 16) ∷ hex (byte % 16) ∷ []

-- The loop of `percent_encode_grpc_message`, over the bytes of the message.
unfoldable pub encode_bytes : List ℕ → List ℕ
unfolding encode_byte
encode_bytes [] = []
encode_bytes (byte ∷ message) = append (encode_byte byte) (encode_bytes message)

-- The encoded message, as the ASCII text of these codes.
unfoldable pub percent_encode_grpc_message : String → List ℕ
unfolding encode_bytes
percent_encode_grpc_message message = encode_bytes (bytes message)

unfoldable pub grpc_status : Error.Error → ℕ
grpc_status Error.missing_authorization_header = 16
grpc_status (Error.invalid_authorization_header _) = 16
grpc_status Error.invalid_authorization_scheme = 16
grpc_status Error.invalid_authorization_token = 16
grpc_status Error.application_not_found = 5
grpc_status Error.missing_application_address = 14
grpc_status (Error.invalid_application_state launching) = 14
grpc_status (Error.invalid_application_state _) = 9
grpc_status (Error.database _) = 13
grpc_status (Error.upstream_connect _) = 14
grpc_status (Error.upstream_handshake _) = 14
grpc_status (Error.invalid_upstream_uri _) = 13
grpc_status (Error.upstream_request _) = 14
grpc_status (Error.authorization _) = 16
grpc_status (Error.internal _) = 13

-- A response of the proxy's own: the HTTP status and the two gRPC headers.
pub record GrpcResponse : Type 0 where
  pub status : ℕ
  pub content_type : String
  pub grpc_status : ℕ
  pub grpc_message : List ℕ

-- `HeaderValue::from_str` of the `http` crate is a parameter: whether it takes a text.
unfoldable pub proxy_error_response : (List ℕ → Bool) → Error.Error → GrpcResponse
unfolding grpc_status percent_encode_grpc_message Error.to_string
proxy_error_response from_str error =
    let message = percent_encode_grpc_message (Error.to_string error) in
    record {
      status = 200;
      content_type = "application/grpc";
      grpc_status = grpc_status error;
      grpc_message = if from_str message then message else bytes "proxy%20error";
    }
