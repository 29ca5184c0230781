-- ===== src/Tests/Graph.antt =====
-- Graphs and the executor at concrete inputs.
use hermes_flow_server.Common.{ℕ, ◌≡◌, refl, Bool, true, List, [], ◌∷◌, none, some, arith}
use hermes_flow_server.Common.Expected.{value}
use hermes_flow_server.Graph.{Node, Graph, delay, file_input}
use hermes_flow_server.Graph.Parse.{FlowJson, new_node, parse_graph}
use hermes_flow_server.Graph.Wiring.{Ensures}
use hermes_flow_server.Graph.Accepted.{IsSound, parse_graph-IsSound}
use hermes_flow_server.Graph.Executor.{AudioExecutor}
use hermes_flow_server.Graph.Executor.Loops
use hermes_flow_server.Graph.Executor.Loops.{detect_and_flag_loops}
use hermes_flow_server.Graph.Executor.Loops.Flags.{Detects}
use hermes_flow_server.Graph.Executor.Loops.Prepared.{initialized, prepare_lem}

-- A file that plays into a delay.
abbrev flow : FlowJson
flow = record {
  nodes = some (
      record {
        is_object = true;
        id = some 7;
        has_type = true;
        has_data = true;
        created = value (file_input, 0);
      }
      ∷ record {
        is_object = true;
        id = some 8;
        has_type = true;
        has_data = true;
        created = value (delay, 50);
      }
      ∷ []);
  start_id = some 7;
  edges = some (record { is_object = true; source = some 7; target = some 8 } ∷ []);
}

parse_graph-IsSound_example : Ensures IsSound (parse_graph (some flow))
parse_graph-IsSound_example = parse_graph-IsSound (some flow)

abbrev always : ℕ → Bool
always i = true

abbrev silence : ℕ → Node
silence total_frames = new_node 8 delay total_frames

abbrev executor : ℕ → AudioExecutor
executor total_frames = record {
  nodes = silence total_frames ∷ [];
  current_node = some 0;
  current_node_id = 8;
  total_bytes_sent = 0;
}

-- Two delays in a circle.
abbrev first_delay : Node
first_delay = record (new_node 1 delay 5) { target = some 1 }

abbrev second_delay : Node
second_delay = record (new_node 2 delay 5) { target = some 0 }

abbrev circle : List Node
circle = first_delay ∷ second_delay ∷ []

-- A delay that leads to itself.
abbrev loop_flow : FlowJson
loop_flow = record {
  nodes = some (
      record {
        is_object = true;
        id = some 8;
        has_type = true;
        has_data = true;
        created = value (delay, 50);
      }
      ∷ []);
  start_id = some 8;
  edges = some (record { is_object = true; source = some 8; target = some 8 } ∷ []);
}

abbrev loop_graph : Graph
loop_graph = record {
  nodes = record (new_node 8 delay 50) { target = some 0 } ∷ [];
  node_map = (8, 0) ∷ [];
  start_node = some 0;
  file_nodes = [];
  mixer_nodes = [];
  clients_node = none;
}

loop_flow-graph : parse_graph (some loop_flow) ≡ value loop_graph
unfolding parse_graph hermes_flow_server.Graph.Parse.parse_nodes
    hermes_flow_server.Graph.Parse.add_node hermes_flow_server.Graph.Parse.set_start_node
    hermes_flow_server.Graph.Parse.parse_edges hermes_flow_server.Graph.Parse.parse_edge
    hermes_flow_server.Graph.connect_input hermes_flow_server.Graph.connect_as
loop_flow-graph = refl

abbrev loop_executor : AudioExecutor
loop_executor = record {
  nodes = loop_graph.nodes;
  current_node = some 0;
  current_node_id = 0;
  total_bytes_sent = 0;
}

loop_executor-created : Loops.create loop_graph ≡ value loop_executor
unfolding hermes_flow_server.Graph.Executor.Loops.create
loop_executor-created = refl

prepare_lem_example :
    (x' : AudioExecutor) × (Loops.prepare 3 loop_graph [] [] loop_executor ≡ some (value x'))
    × (x'.current_node ≡ some 0)
    × (x'.total_bytes_sent ≡ 0)
    × Detects (initialized loop_graph [] loop_graph.nodes) (some 0) x'.nodes
prepare_lem_example =
    prepare_lem 3 (some loop_flow) loop_graph [] [] loop_executor loop_flow-graph
      loop_executor-created tt (omega arith)
