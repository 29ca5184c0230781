-- ===== src/Graph.antt =====
-- src/core/graph: the nodes of an audio graph and how they are connected. The code's pointers to nodes
-- are indices into `Graph::nodes`, which owns them.
pub mod Parse
pub mod Wiring
pub mod Accepted
pub mod Executor
pub mod FileInput
pub mod Registry
use hermes_flow_server.Common.{
  ℕ, zero, suc, ◌+◌, Bool, true, false, ◌&&◌, Option, none, some, List, [], ◌∷◌, ◌++◌, ltb, leb,
  get_elem?,
}
use hermes_flow_server.Common.Expected.{Expected, value, unexpected}
use hermes_flow_server.Types.{NodeErrorCode, format_error}

pub data NodeKind : Type 0 where
  file_input mixer delay clients file_options : NodeKind

-- `Node`, with the members of `MixerNode` and `FileInputNode` that the graph's structure is in.
pub record Node : Type 0 where
  pub id : ℕ
  pub kind : NodeKind
  pub target : Option ℕ
  pub processed_frames : ℕ
  pub total_frames : ℕ
  pub in_buffer_processed_frames : ℕ
  pub is_in_loop : Bool
  pub inputs : List ℕ
  pub options : Option ℕ

pub record Graph : Type 0 where
  pub nodes : List Node
  pub node_map : List (ℕ × ℕ)
  pub start_node : Option ℕ
  pub file_nodes : List ℕ
  pub mixer_nodes : List ℕ
  pub clients_node : Option ℕ

abbrev pub is_complete : Node → Bool
is_complete n = ltb 0 n.total_frames && leb n.total_frames n.processed_frames

-- A change of one node in place.
abbrev pub modify : ℕ → (Node → Node) → List Node → List Node
modify i f [] = []
modify zero f (n ∷ ns) = f n ∷ ns
modify (suc i) f (n ∷ ns) = n ∷ modify i f ns

abbrev pub set_next : ℕ → Node → Node
set_next t n = record n { target = some t }

abbrev pub push_input : ℕ → Node → Node
push_input s n = record n { inputs = n.inputs ++ s ∷ [] }

abbrev pub set_options : ℕ → Node → Node
set_options s n = record n { options = some s }

-- `wire_standard`, of node `t`, for the source `s`.
abbrev pub wire_standard : ℕ → ℕ → List Node → List Node
wire_standard t s nodes = modify s (set_next t) nodes

-- The overrides of `connect_input`, by the kind of the node that is called and of the source.
unfoldable pub connect_as :
    NodeKind → NodeKind → ℕ → ℕ → List Node → Expected NodeErrorCode (List Node)
connect_as file_input file_options t s nodes = value (modify t (set_options s) nodes)
connect_as file_input delay t s nodes = value (wire_standard t s nodes)
connect_as file_input _ t s nodes = unexpected format_error
connect_as mixer file_input t s nodes = value (wire_standard t s (modify t (push_input s) nodes))
connect_as mixer delay t s nodes = value (wire_standard t s nodes)
connect_as mixer _ t s nodes = unexpected format_error
connect_as delay clients t s nodes = unexpected format_error
connect_as delay _ t s nodes = value (wire_standard t s nodes)
connect_as clients _ t s nodes = value nodes
connect_as file_options _ t s nodes = unexpected format_error

-- The call through the two pointers. That both are nodes of the graph is a theorem's matter.
abbrev pub connect_found :
    Option Node → Option Node → ℕ → ℕ → List Node → Expected NodeErrorCode (List Node)
connect_found (some tgt) (some src) t s nodes = connect_as tgt.kind src.kind t s nodes
connect_found _ _ t s nodes = value nodes

unfoldable pub connect_input : ℕ → ℕ → List Node → Expected NodeErrorCode (List Node)
connect_input t s nodes = connect_found (get_elem? nodes t) (get_elem? nodes s) t s nodes
