-- ===== src/Proxy/Grpc/Response.antt =====
-- The responses of `proxy_error_response` of server/src/proxy.rs.
use spark_plug.Common.{ℕ, ◌≡◌, Bool, true, List, All}
use spark_plug.Error.{Error, to_string}
use spark_plug.Text.{bytes}
use spark_plug.Proxy.Grpc.{proxy_error_response, percent_encode_grpc_message}
use spark_plug.Proxy.Grpc.Encoding.{
  IsVisible, decode, decode-percent_encode, percent_encode-IsVisible,
}

module _ (from_str : List ℕ → Bool)
    (accepts_visible : (s : List ℕ) → All IsVisible s → from_str s ≡ true) where
  -- Where `HeaderValue::from_str` takes every visible ASCII text, a client that undoes the percent
  -- encoding reads the error's own text, never the fallback.
  pub response_message :
      (e : Error) → decode (proxy_error_response from_str e).grpc_message ≡ bytes (to_string e)
  unfolding proxy_error_response
  response_message e =
      rw
        (accepts_visible (percent_encode_grpc_message (to_string e))
          (percent_encode-IsVisible (to_string e)))
        (decode-percent_encode (to_string e))
