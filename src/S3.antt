-- ===== src/S3.antt =====
-- src/network/s3/S3RequestFactory.cpp: the request for a file. `sign` is `AwsSigner::sign`, whose
-- authorization, date and hash are strings; `is_aws` is whether the host contains "amazonaws.com".
-- src/network/s3/AwsSigner.cpp: `sign` over the library that makes signatures. src/network/s3/S3Session.cpp:
-- the session that asks for a file.
use Prim.Native.String.{String, ◌++◌ as ◌<>◌}
use text.Mathlib.Text
use hermes_flow_server.Common.{ℕ, Bool, ◌||◌, if◌then◌else◌, ◌≡◌, refl, List, [], ◌∷◌}
use hermes_flow_server.Common.Expected.{Expected, value, unexpected}
use hermes_flow_server.Types.{AppError, config_error}
use hermes_flow_server.Config.{S3Config}

pub record SignedHeaders : Type 0 where
  pub authorization : String
  pub date : String
  pub content_sha256 : String

pub record SignedRequest : Type 0 where
  pub target : String
  pub version : ℕ
  pub host : String
  pub headers : SignedHeaders

-- The default ports, and no port, are not written.
abbrev pub is_plain_port : String → Bool
is_plain_port port = Text.◌==◌ port "" || Text.◌==◌ port "80" || Text.◌==◌ port "443"

abbrev pub full_host : Bool → S3Config → String
full_host is_aws cfg =
    if is_aws
    then cfg.bucket <> (".s3." <> (cfg.region <> ".amazonaws.com"))
    else (if is_plain_port cfg.port then cfg.host else cfg.host <> (":" <> cfg.port))

abbrev pub canonical_uri : Bool → S3Config → String → String
canonical_uri is_aws cfg file_key =
    if is_aws then "/" <> file_key else "/" <> (cfg.bucket <> ("/" <> file_key))

unfoldable pub create_signed_get_request :
    (S3Config → String → String → SignedHeaders) → Bool → S3Config → String → SignedRequest
create_signed_get_request sign is_aws cfg file_key = record {
  target = canonical_uri is_aws cfg file_key;
  version = 11;
  host = full_host is_aws cfg;
  headers = sign cfg (full_host is_aws cfg) (canonical_uri is_aws cfg file_key);
}

-- The host that is signed is the host that is asked.
signed_host :
    (sign : S3Config → String → String → SignedHeaders) (is_aws : Bool) (cfg : S3Config)
    (file_key : String)
    → let req = create_signed_get_request sign is_aws cfg file_key in
      req.headers ≡ sign cfg req.host req.target
unfolding create_signed_get_request
signed_host sign is_aws cfg file_key = refl

-- What `aws_sigv4::Signature` is made of.
pub record Credentials : Type 0 where
  pub service : String
  pub host : String
  pub region : String
  pub secret_key : String
  pub access_key : String
  pub time : ℕ

-- The calls of `aws_sigv4::Signature`.
pub record Signature : Type 0 where
  pub create_canonical_request :
      Credentials → String → String → String → List (String × List String) → String → String
  pub create_string_to_sign : Credentials → String → String
  pub create_signature : Credentials → String → String
  pub create_authorization_header : Credentials → String → String

-- The hash of an empty payload.
abbrev payload_hash : String
payload_hash = "e3b0c44298fc1c149afbf4c8996fb92427ae41e4649b934ca495991b7852b855"

-- The map of the headers, in the order of their names.
abbrev signed_headers : String → String → List (String × List String)
signed_headers host date =
    ("host", host ∷ [])
    ∷ ("x-amz-content-sha256", payload_hash ∷ [])
    ∷ ("x-amz-date", date ∷ [])
    ∷ []

module _ (signer : Signature) (amz_date : ℕ → String) (now : ℕ) where
  abbrev credentials : S3Config → String → Credentials
  credentials cfg host = record {
    service = cfg.service;
    host = host;
    region = cfg.region;
    secret_key = cfg.secret_key;
    access_key = cfg.access_key;
    time = now;
  }

  -- The authorization of a request with these headers.
  abbrev authorize : Credentials → String → List (String × List String) → String
  authorize c uri headers = signer.create_authorization_header c (
      signer.create_signature c (
        signer.create_string_to_sign c (signer.create_canonical_request c "GET" uri "" headers "")))

  -- `AwsSigner::sign` of a GET, at the time `now`; `amz_date` is its text by `strftime`.
  unfoldable sign : S3Config → String → String → SignedHeaders
  sign cfg host uri_path = record {
    authorization = authorize (credentials cfg host) uri_path (signed_headers host (amz_date now));
    date = amz_date now;
    content_sha256 = payload_hash;
  }

  -- The authorization of a request is that of the host, the target, the date and the hash that the
  -- request itself holds.
  signed_request :
      (is_aws : Bool) (cfg : S3Config) (file_key : String)
      → let req = create_signed_get_request sign is_aws cfg file_key in
        req.headers.authorization
        ≡ authorize (credentials cfg req.host) req.target (
            ("host", req.host ∷ [])
            ∷ ("x-amz-content-sha256", req.headers.content_sha256 ∷ [])
            ∷ ("x-amz-date", req.headers.date ∷ [])
            ∷ [])
  unfolding create_signed_get_request sign
  signed_request is_aws cfg file_key = refl

-- `S3Session::create`: the session is its configuration.
unfoldable create : S3Config → Expected AppError S3Config
create cfg = if Text.◌==◌ cfg.access_key "" then unexpected config_error else value cfg

-- `S3Session::request_file`, where `execute` is the transfer from a host and a port.
unfoldable request_file :
    {Result : Type 0}
    → (String → String → SignedRequest → Result)
    → (S3Config → String → String → SignedHeaders)
    → Bool
    → S3Config
    → String
    → Result
unfolding create_signed_get_request
request_file execute sign is_aws cfg file_key =
    execute cfg.host cfg.port (create_signed_get_request sign is_aws cfg file_key)
