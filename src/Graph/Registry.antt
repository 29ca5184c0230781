-- ===== src/Graph/Registry.antt =====
-- src/core/graph/NodeRegistry.cpp and NodeFactory.hpp: making a node from JSON. What Boost.JSON and the
-- standard library give is in the arguments: the kind of a value, `none` where `require_json` fails,
-- and the results of `from_chars`. The floating-point numbers are a type with two tests.
pub mod Accepted
use Prim.Native.String.{String, ◌++◌ as ◌<>◌}
use text.Mathlib.Text
use hermes_flow_server.Common.{
  ℕ, ◌^◌, Bool, true, false, ◌||◌, Option, none, some, List, [], ◌∷◌, ◌++◌, if◌then◌else◌,
}
use hermes_flow_server.Common.Expected.{Expected, value, unexpected, ◌>>=◌, or_fail}
use hermes_flow_server.Common.Int.{ℤ}
use hermes_flow_server.Types.{AppError, parse_error}
use hermes_flow_server.Audio.Pcm.{to_u16}
use hermes_flow_server.Graph.{NodeKind, file_input, mixer, delay, clients, file_options}

pub data PortJson : Type 0 where
  int64_port : ℤ → PortJson
  -- a string, with the result of `from_chars` into a `uint16_t`
  string_port : Option ℕ → PortJson
  other_port : PortJson

unfoldable pub parse_port : PortJson → Expected AppError ℕ
parse_port (int64_port n) = value (to_u16 n)
parse_port (string_port r) = or_fail r parse_error
parse_port other_port = unexpected parse_error

abbrev pub downloads_dir : String
downloads_dir = "downloads/"

module _ (Real : Type 0) (is_below_zero is_above_one : Real → Bool) (zero_ratio : Real) where
  pub data LossJson : Type 0 where
    -- a number, as the double that it is converted to
    number : Real → LossJson
    string_loss : Option Real → LossJson
    other_loss : LossJson

  abbrev pub loss_value : LossJson → Expected AppError Real
  loss_value (number x) = value x
  loss_value (string_loss r) = or_fail r parse_error
  loss_value other_loss = unexpected parse_error

  unfoldable pub parse_loss_ratio : LossJson → Expected AppError Real
  parse_loss_ratio json_loss = do
    loss_val ← loss_value json_loss
    if is_below_zero loss_val || is_above_one loss_val
        then unexpected parse_error
        else value loss_val

  pub record ClientConfig : Type 0 where
    pub ip : String
    pub port : ℕ
    pub packet_loss_ratio : Real

  -- An element of "clients"; one that is not an object makes `as_object` throw.
  pub record ClientJson : Type 0 where
    pub is_object : Bool
    pub ip : Option String
    pub port : Option PortJson
    pub loss_ratio : Option LossJson

  abbrev pub loss_or_zero : Option LossJson → Expected AppError Real
  loss_or_zero none = value zero_ratio
  loss_or_zero (some l) = parse_loss_ratio l

  unfoldable pub parse_client : ClientJson → Expected AppError ClientConfig
  unfolding parse_port parse_loss_ratio
  parse_client v = do
    ip ← or_fail v.ip parse_error
    port_json ← or_fail v.port parse_error
    port ← parse_port port_json
    loss_ratio ← loss_or_zero v.loss_ratio
    value (record { ip = ip; port = port; packet_loss_ratio = loss_ratio })

  -- A result, or an exception that was thrown on the way.
  pub data Thrown (A : Type 0) : Type 0 where
    returned : Expected AppError A → Thrown A
    thrown : Thrown A

  abbrev pub next_client :
      Bool
      → Expected AppError ClientConfig
      → List ClientConfig
      → (List ClientConfig → Thrown (List ClientConfig))
      → Thrown (List ClientConfig)
  next_client false r acc rest = thrown
  next_client true (unexpected e) acc rest = returned (unexpected e)
  next_client true (value c) acc rest = rest (acc ++ c ∷ [])

  unfoldable pub parse_clients : List ClientJson → List ClientConfig → Thrown (List ClientConfig)
  unfolding parse_client
  parse_clients [] acc = returned (value acc)
  parse_clients (v ∷ vs) acc = next_client v.is_object (parse_client v) acc (parse_clients vs)

  -- `create_clients`, for "clients" where it is there, and an array.
  unfoldable pub create_clients : Option (Option (List ClientJson)) → Thrown (List ClientConfig)
  unfolding parse_clients
  create_clients none = returned (value [])
  create_clients (some none) = returned (unexpected parse_error)
  create_clients (some (some vs)) = parse_clients vs []

  -- The name and the path of a file.
  unfoldable pub create_file_input : Option String → Expected AppError (String × String)
  create_file_input file_name = do
    name ← or_fail file_name parse_error
    value (name, downloads_dir <> name)

  -- The number of milliseconds, which `DelayNode` takes as a whole number: `to_ms` is the conversion.
  unfoldable pub create_delay : (Real → ℕ) → Option Real → Expected AppError ℕ
  create_delay to_ms delay_json = do
    delay_sec ← or_fail delay_json parse_error
    if is_below_zero delay_sec then unexpected parse_error else value (to_ms delay_sec)

  -- The gain and the pitch shift.
  unfoldable pub create_file_options : Option Real → Option Real → Expected AppError (Real × Real)
  create_file_options gain_json pitch_shift_json = do
    gain ← or_fail gain_json parse_error
    pitch_shift ← or_fail pitch_shift_json parse_error
    value (gain, pitch_shift)

-- The creators that `register_builtin_nodes` registers, by what they create.
abbrev pub builtin_nodes : List (String × NodeKind)
builtin_nodes =
    ("fileInput", file_input)
    ∷ ("mixer", mixer)
    ∷ ("delay", delay)
    ∷ ("clients", clients)
    ∷ ("fileOptions", file_options)
    ∷ []

abbrev pub find_creator : String → List (String × NodeKind) → Option NodeKind
find_creator type_name [] = none
find_creator type_name ((name, kind) ∷ rest) =
    if Text.◌==◌ name type_name then some kind else find_creator type_name rest

-- `NodeFactory::create`, with the call of the creator that it finds.
unfoldable pub create :
    {A : Type 0} → String → (NodeKind → Expected AppError A) → Expected AppError A
create type_name creator = do
  kind ← or_fail (find_creator type_name builtin_nodes) parse_error
  creator kind
