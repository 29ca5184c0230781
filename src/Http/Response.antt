-- ===== src/Http/Response.antt =====
-- src/infra/parsers/response_builder.hpp: the responses. A response of Boost.Beast comes as the parts
-- of it that the builder sets; the standard headers are the same for all, so that only whether they
-- are set is kept. What Boost.JSON writes of an object is its fields.
use Prim.Native.String.{String}
use hermes_flow_server.Common.{ℕ, Bool, true, false, Option, none, some, List}

-- `beast::http::status`, those that the code answers with.
pub data Status : Type 0 where
  ok bad_request not_found method_not_allowed conflict internal_server_error bad_gateway : Status

-- A line of the text that Prometheus reads.
pub data MetricLine : Type 0 where
  help type : String → String → MetricLine
  sample : String → ℕ → MetricLine
  session_sample : String → ℕ → ℕ → MetricLine

-- The body: a JSON object with "status", "message" and, for a success, "sessionID"; or a text.
pub data Body : Type 0 where
  empty : Body
  success_json : ℕ → Body
  error_json : String → Body
  plain_text : String → Body
  metrics : List MetricLine → Body

pub record Response : Type 0 where
  pub version : ℕ
  pub keep_alive : Bool
  pub result : Status
  pub standard_headers : Bool
  pub content_type : Option String
  pub body : Body

-- What `set_standard_headers` and the setter of the content type leave.
abbrev pub with_headers : String → Response → Response
with_headers content_type res = record res {
  standard_headers = true;
  content_type = some content_type;
}

unfoldable pub build_success_response : ℕ → ℕ → Bool → Response → Response
build_success_response session_id version keep_alive res =
    let res' = with_headers "application/json" res in
    record res' {
      version = version;
      keep_alive = keep_alive;
      result = ok;
      body = success_json session_id;
    }

unfoldable pub build_error_response : String → ℕ → Bool → Status → Response → Response
build_error_response error_message version keep_alive status res =
    let res' = with_headers "application/json" res in
    record res' {
      version = version;
      keep_alive = keep_alive;
      result = status;
      body = error_json error_message;
    }

unfoldable pub build_plaintext_response : Body → ℕ → Bool → Response → Response
build_plaintext_response body_text version keep_alive res =
    let res' = with_headers "text/plain; version=0.0.4" res in
    record res' { version = version; keep_alive = keep_alive; result = ok; body = body_text }

unfoldable pub build_options_response : ℕ → Bool → Response → Response
build_options_response version keep_alive res =
    let res' = with_headers "text/plain" res in
    record res' { version = version; keep_alive = keep_alive; result = ok; body = plain_text "OK" }

-- `message` as its constructor leaves it: version 1.1, no field.
abbrev pub default_response : Response
default_response = record {
  version = 11;
  keep_alive = true;
  result = ok;
  standard_headers = false;
  content_type = none;
  body = empty;
}
