-- ===== src/Graph/Parse.antt =====
-- src/infra/parsers/Json2Graph.cpp: the graph of a JSON object. What Boost.JSON gives of an element
-- comes as a record: whether it is an object, and what `require_json` finds under a key, `none`
-- for an absent key or a value of another type. Identifiers are numbers, which the code compares.
use hermes_flow_server.Common.{
  ℕ, ◌==◌, Bool, true, false, Option, none, some, List, [], ◌∷◌, ◌++◌, length, if◌then◌else◌,
  get_elem?,
}
use hermes_flow_server.Common.Expected.{Expected, value, unexpected, ◌>>=◌, or_fail}
use hermes_flow_server.Types.{AppError, parse_error, NodeErrorCode}
use hermes_flow_server.Graph.{
  NodeKind, file_input, mixer, delay, clients, file_options, Node, Graph, connect_input,
}

-- An element of "nodes". `created` is what `NodeFactory::create` makes of its type and data: the
-- kind, and the total of frames that a delay is made with.
pub record NodeJson : Type 0 where
  pub is_object : Bool
  pub id : Option ℕ
  pub has_type : Bool
  pub has_data : Bool
  pub created : Expected AppError (NodeKind × ℕ)

pub record EdgeJson : Type 0 where
  pub is_object : Bool
  pub source : Option ℕ
  pub target : Option ℕ

-- "flow", and what stands in it; `none` where `require_json` fails.
pub record FlowJson : Type 0 where
  pub nodes : Option (List NodeJson)
  pub start_id : Option ℕ
  pub edges : Option (List EdgeJson)

abbrev pub find : ℕ → List (ℕ × ℕ) → Option ℕ
find id [] = none
find id ((k, i) ∷ rest) = if k == id then some i else find id rest

-- `node_map[id] = node`
abbrev pub insert : ℕ → ℕ → List (ℕ × ℕ) → List (ℕ × ℕ)
insert id i [] = (id, i) ∷ []
insert id i ((k, j) ∷ rest) = if k == id then (k, i) ∷ rest else (k, j) ∷ insert id i rest

abbrev pub new_node : ℕ → NodeKind → ℕ → Node
new_node id kind total_frames = record {
  id = id;
  kind = kind;
  target = none;
  processed_frames = 0;
  total_frames = total_frames;
  in_buffer_processed_frames = 0;
  is_in_loop = false;
  inputs = [];
  options = none;
}

abbrev pub require : Bool → Expected AppError Unit
require true = value tt
require false = unexpected parse_error

abbrev pub classify_clients : Option ℕ → ℕ → Graph → Expected AppError Graph
classify_clients none i g = value (record g { clients_node = some i })
classify_clients (some c) i g = unexpected parse_error

-- The lists of nodes by kind, and the single node of the clients, for a node at index `i`.
abbrev pub classify : NodeKind → ℕ → Graph → Expected AppError Graph
classify file_input i g = value (record g { file_nodes = g.file_nodes ++ i ∷ [] })
classify mixer i g = value (record g { mixer_nodes = g.mixer_nodes ++ i ∷ [] })
classify clients i g = classify_clients g.clients_node i g
classify delay i g = value g
classify file_options i g = value g

unfoldable pub add_node : ℕ → NodeKind × ℕ → Graph → Expected AppError Graph
add_node id (kind, total_frames) g = do
  let i = length g.nodes
  g' ← classify kind i (record g { node_map = insert id i g.node_map })
  value (record g' { nodes = g'.nodes ++ new_node id kind total_frames ∷ [] })

unfoldable pub parse_nodes : List NodeJson → Graph → Expected AppError Graph
parse_nodes [] g = value g
parse_nodes (v ∷ vs) g = do
  _ ← require v.is_object
  id ← or_fail v.id parse_error
  _ ← require v.has_type
  _ ← require v.has_data
  created ← v.created
  g' ← add_node id created g
  parse_nodes vs g'

unfoldable pub set_start_node : Option ℕ → Graph → Expected AppError Graph
set_start_node start_id g = do
  id ← or_fail start_id parse_error
  i ← or_fail (find id g.node_map) parse_error
  value (record g { start_node = some i })

abbrev pub is_clients_kind : NodeKind → Bool
is_clients_kind clients = true
is_clients_kind _ = false

-- The kind of a source that is a node of the graph.
abbrev pub is_clients : Option Node → Bool
is_clients none = false
is_clients (some n) = is_clients_kind n.kind

-- An error of `connect_input` keeps its message, as a parse error.
abbrev pub as_parse_error : {A : Type 0} → Expected NodeErrorCode A → Expected AppError A
as_parse_error (value a) = value a
as_parse_error (unexpected e) = unexpected parse_error

unfoldable pub parse_edge : EdgeJson → Graph → Expected AppError Graph
parse_edge v g = do
  _ ← require v.is_object
  src_id ← or_fail v.source parse_error
  tgt_id ← or_fail v.target parse_error
  src ← or_fail (find src_id g.node_map) parse_error
  tgt ← or_fail (find tgt_id g.node_map) parse_error
  if is_clients (get_elem? g.nodes src) then unexpected parse_error else do
    nodes ← as_parse_error (connect_input tgt src g.nodes)
    value (record g { nodes = nodes })

unfoldable pub parse_edges : List EdgeJson → Graph → Expected AppError Graph
parse_edges [] g = value g
parse_edges (v ∷ vs) g = do g' ← parse_edge v g; parse_edges vs g'

abbrev pub empty_graph : Graph
empty_graph = record {
  nodes = [];
  node_map = [];
  start_node = none;
  file_nodes = [];
  mixer_nodes = [];
  clients_node = none;
}

unfoldable pub parse_graph : Option FlowJson → Expected AppError Graph
parse_graph flow_json = do
  flow ← or_fail flow_json parse_error
  nodes ← or_fail flow.nodes parse_error
  g ← parse_nodes nodes empty_graph
  g' ← set_start_node flow.start_id g
  edges ← or_fail flow.edges parse_error
  parse_edges edges g'
