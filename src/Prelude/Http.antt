-- ===== src/Prelude/Http.antt =====
-- The errors of the HTTP handlers: a status code and a text.
use snip_36_prover_web.Prelude.{ℕ, String}

-- `error_response`: the status code and the text.
pub record HttpError : Type 0 where
  pub status : ℕ
  pub message : String

abbrev pub bad_request : String → HttpError
bad_request message = record { status = 400; message = message }

abbrev pub internal_error : String → HttpError
internal_error message = record { status = 500; message = message }

abbrev pub gateway_timeout : String → HttpError
gateway_timeout message = record { status = 504; message = message }
