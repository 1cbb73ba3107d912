-- ===== src/Http.antt =====
-- The parts of the `http` crate's types that the program reads.
use spark_plug.Common.{String, Option, Result}

-- `StatusCode`
pub data Status : Type 0 where
  bad_request unauthorized not_found internal_server_error : Status

-- A header's value, by what `HeaderValue::to_str` answers for it: the text, or the text of the
-- `ToStrError` of a value that is not visible ASCII.
abbrev pub HeaderValue : Type 0
HeaderValue = Result String String

-- The first value of a header. `HeaderMap` ignores the case of names: the map is asked with the
-- name as the program spells it, and `authorization` stands for both of its spellings.
abbrev pub HeaderMap : Type 0
HeaderMap = String → Option HeaderValue

abbrev pub authorization : String
authorization = "authorization"
