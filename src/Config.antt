-- ===== src/Config.antt =====
-- src/core/config/Config.cpp and Config.hpp: the configuration, from what toml++ gives of each key and the
-- environment of each variable. Numbers of the file are read by toml++ in the range of their type.
use Prim.Native.String.{String}
use hermes_flow_server.Common.{
  ℕ, ◌*◌, ◌%◌, ◌<◌, ◌≡◌, refl, Bool, true, false, ◌||◌, Option, none, some, List, [], ◌∷◌, length,
  if◌then◌else◌, All, arith,
}
use hermes_flow_server.Common.Int.{ℤ}
use hermes_flow_server.Types.{AppError, config_error}
use hermes_flow_server.Audio.Pcm.{to_u16}

pub record ServerConfig : Type 0 where
  pub address : String
  pub port : ℕ
  pub threads : ℕ

pub record S3Config : Type 0 where
  pub access_key : String
  pub secret_key : String
  pub region : String
  pub host : String
  pub port : String
  pub service : String
  pub bucket : String

pub record JnausConfig : Type 0 where
  pub address : String
  pub port_start : ℕ
  pub port_end : ℕ

pub record CryptoConfig : Type 0 where
  pub master_key : List ℕ
  pub salt : List ℕ

pub record AppConfig : Type 0 where
  pub server : ServerConfig
  pub s3 : S3Config
  pub janus : JnausConfig
  pub crypto : CryptoConfig

-- A result, an error, or an exception.
pub data Loaded (A : Type 0) : Type 0 where
  loaded : A → Loaded A
  refused : AppError → Loaded A
  thrown : Loaded A

abbrev pub and_then : {A B : Type 0} → Loaded A → (A → Loaded B) → Loaded B
and_then (loaded a) f = f a
and_then (refused e) f = refused e
and_then thrown f = thrown

abbrev pub value_or : {A : Type 0} → Option A → A → A
value_or none d = d
value_or (some a) d = a

-- What the tables of the file hold under their keys.
pub record ServerTable : Type 0 where
  pub address : Option String
  pub port : Option ℕ
  pub threads : Option ℕ

pub record S3Table : Type 0 where
  pub host : Option String
  pub port : Option String
  pub bucket : Option String
  pub region : Option String
  pub service : Option String
  -- a key, and in it the string that it is, where it is one
  pub access_key : Option (Option String)
  pub secret_key : Option (Option String)

pub record JanusTable : Type 0 where
  pub address : Option String
  pub port_start : Option ℕ
  pub port_end : Option ℕ

-- The strings, as their characters.
pub record CryptoTable : Type 0 where
  pub master_key : Option (List ℕ)
  pub salt : Option (List ℕ)

pub record Table : Type 0 where
  pub server : Option ServerTable
  pub s3 : Option S3Table
  pub janus : Option JanusTable
  pub crypto : Option CryptoTable

-- The file: absent, not TOML, or a table.
pub data File : Type 0 where
  absent invalid : File
  table : Table → File

-- `require_key<std::string>`, whose `value()` throws for another type.
unfoldable pub require_key : Option (Option String) → Loaded String
require_key none = refused config_error
require_key (some none) = thrown
require_key (some (some s)) = loaded s

abbrev pub env_or_key : Option String → Option (Option String) → Loaded String
env_or_key (some s) key = loaded s
env_or_key none key = require_key key

abbrev pub is_empty : List ℕ → Bool
is_empty [] = true
is_empty (c ∷ cs) = false

abbrev pub load_server : Option ServerTable → ServerConfig → ServerConfig
load_server none d = d
load_server (some t) d = record {
  address = value_or t.address "0.0.0.0";
  port = value_or t.port 8080;
  threads = value_or t.threads 1;
}

abbrev pub load_janus : Option JanusTable → JnausConfig → JnausConfig
load_janus none d = d
load_janus (some t) d = record {
  address = value_or t.address "127.0.0.1";
  port_start = value_or t.port_start 10000;
  port_end = value_or t.port_end 10200;
}

-- `strtol` of two characters to base 16, and the variables of the environment.
module _ (strtol : ℕ → ℕ → ℤ) (env_access_key env_secret_key : Option String) where
  unfoldable pub hex_to_bytes : List ℕ → Loaded (List ℕ)
  hex_to_bytes [] = loaded []
  hex_to_bytes (a ∷ []) = thrown
  hex_to_bytes (a ∷ b ∷ hex) =
      and_then (hex_to_bytes hex) (λ bytes. loaded (to_u16 (strtol a b) % 256 ∷ bytes))

  abbrev pub load_s3 : Option S3Table → S3Config → Loaded S3Config
  load_s3 none d = loaded d
  load_s3 (some t) d = and_then (env_or_key env_access_key t.access_key) (λ access_key.
      and_then (env_or_key env_secret_key t.secret_key) (λ secret_key. loaded (record {
        access_key = access_key;
        secret_key = secret_key;
        region = value_or t.region "us-east-1";
        host = value_or t.host "localhost";
        port = value_or t.port "9000";
        service = value_or t.service "s3";
        bucket = value_or t.bucket "audio-files";
      })))

  abbrev pub load_crypto : Option CryptoTable → Loaded CryptoConfig
  load_crypto none = thrown
  load_crypto (some t) =
      let key = value_or t.master_key [] in
      let salt = value_or t.salt [] in
      if is_empty key || is_empty salt
      then thrown
      else and_then (hex_to_bytes key) (λ master_key.
        and_then (hex_to_bytes salt)
          (λ salt. loaded (record { master_key = master_key; salt = salt })))

  -- `load_config`, with the members of a new `AppConfig`: the ports of Janus have no initial value.
  unfoldable pub load_config : AppConfig → File → Loaded AppConfig
  unfolding hex_to_bytes
  load_config config absent = loaded config
  load_config config invalid = refused config_error
  load_config config (table t) = and_then (load_s3 t.s3 config.s3) (λ s3.
      and_then (load_crypto t.crypto) (λ crypto. loaded (record {
        server = load_server t.server config.server;
        s3 = s3;
        janus = load_janus t.janus config.janus;
        crypto = crypto;
      })))

  -- The bytes of a string of hexadecimal digits are half as many as its characters; a string of an
  -- odd number of characters makes the loading throw.
  abbrev pub HalfAsMany : List ℕ → Loaded (List ℕ) → Type 0
  HalfAsMany hex (loaded bytes) = (length bytes * 2 ≡ length hex) × All (λ b. b < 256) bytes
  HalfAsMany hex (refused e) = false ≡ true
  HalfAsMany hex thrown = length hex % 2 ≡ 1

  more-HalfAsMany :
      (a b : ℕ) (hex : List ℕ) (r : Loaded (List ℕ))
      → HalfAsMany hex r
      → HalfAsMany (a ∷ b ∷ hex) (and_then r (λ bytes. loaded (to_u16 (strtol a b) % 256 ∷ bytes)))
  more-HalfAsMany a b hex (loaded bytes) h = (omega (arith, h.0), (omega arith, h.1))
  more-HalfAsMany a b hex (refused e) h = h
  more-HalfAsMany a b hex thrown h = omega arith

  pub hex_to_bytes-HalfAsMany : (hex : List ℕ) → HalfAsMany hex (hex_to_bytes hex)
  unfolding hex_to_bytes
  hex_to_bytes-HalfAsMany [] = (refl, tt)
  hex_to_bytes-HalfAsMany (a ∷ []) = refl
  hex_to_bytes-HalfAsMany (a ∷ b ∷ hex) =
      more-HalfAsMany a b hex (hex_to_bytes hex) (hex_to_bytes-HalfAsMany hex)
