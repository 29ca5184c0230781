-- ===== src/Graph/Executor/Loops.antt =====
-- src/core/graph/AudioExecutor.cpp: `prepare`, with `detect_and_flag_loops`, `update_mixers` and
-- `await_all_dynamic`.
pub mod Walk
pub mod Setting
pub mod Flags
pub mod Prepared
use hermes_flow_server.Common.{
  ℕ, zero, suc, max, ◌==◌, Bool, true, false, Option, none, some, List, [], ◌∷◌, get_elem?,
  if◌then◌else◌,
}
use hermes_flow_server.Common.Expected.{Expected, value, unexpected}
use hermes_flow_server.Types.{AppError, logic_error}
use hermes_flow_server.Sessions.{contains}
use hermes_flow_server.Graph.{
  NodeKind, file_input, mixer, delay, clients, file_options, Node, Graph, modify,
}
use hermes_flow_server.Graph.Executor.{AudioExecutor}

abbrev pub target_of : Option Node → Option ℕ
target_of none = none
target_of (some n) = n.target

-- `next()`
abbrev pub next : List Node → ℕ → Option ℕ
next nodes i = target_of (get_elem? nodes i)

-- The first loop of `detect_and_flag_loops`, on fuel: `none` where the fuel runs out, else
-- `cycle_start`.
unfoldable pub find_cycle : ℕ → List Node → Option ℕ → List ℕ → Option (Option ℕ)
find_cycle zero nodes curr visited = none
find_cycle (suc fuel) nodes none visited = some none
find_cycle (suc fuel) nodes (some i) visited =
    let rest = find_cycle fuel nodes (next nodes i) (i ∷ visited) in
    if contains i visited then some (some i) else rest

abbrev pub set_flag : Bool → Node → Node
set_flag b n = record n { is_in_loop = b }

abbrev pub set_flags : List ℕ → Bool → List Node → List Node
set_flags [] b nodes = nodes
set_flags (i ∷ is) b nodes = set_flags is b (modify i (set_flag b) nodes)

-- The virtual `set_in_loop`.
abbrev pub set_in_loop_as : Option Node → ℕ → Bool → List Node → List Node
set_in_loop_as none i b nodes = nodes
set_in_loop_as (some n) i b nodes = elim n.kind [
  | mixer ↦ set_flags n.inputs b (modify i (set_flag b) nodes)
  | _ ↦ modify i (set_flag b) nodes
]

unfoldable pub set_in_loop : ℕ → Bool → List Node → List Node
set_in_loop i b nodes = set_in_loop_as (get_elem? nodes i) i b nodes

-- The test of the second loop, for the next node.
abbrev pub while_not : ℕ → List Node → Option (List Node) → Option ℕ → Option (List Node)
while_not cycle_start nodes rest none = rest
while_not cycle_start nodes rest (some j) = if j == cycle_start then some nodes else rest

-- The second loop, on fuel, at `loop_node`: `none` where the fuel runs out, and for a node with no
-- next one, from which the code would follow a null pointer.
unfoldable pub flag_cycle : ℕ → ℕ → Option ℕ → List Node → Option (List Node)
unfolding set_in_loop
flag_cycle zero cycle_start loop_node nodes = none
flag_cycle (suc fuel) cycle_start none nodes = none
flag_cycle (suc fuel) cycle_start (some i) nodes =
    let nodes' = set_in_loop i true nodes in
    let rest = flag_cycle fuel cycle_start (next nodes' i) nodes' in
    while_not cycle_start nodes' rest (next nodes' i)

abbrev pub flag_from : ℕ → Option (Option ℕ) → List Node → Option (List Node)
flag_from fuel none nodes = none
flag_from fuel (some none) nodes = some nodes
flag_from fuel (some (some i)) nodes = flag_cycle fuel i (some i) nodes

unfoldable pub detect_and_flag_loops : ℕ → Option ℕ → List Node → Option (List Node)
unfolding find_cycle flag_cycle
detect_and_flag_loops fuel start_node nodes =
    flag_from fuel (find_cycle fuel nodes start_node []) nodes

-- `MixerNode::set_max_frames`
abbrev pub max_frames : List ℕ → List Node → ℕ → ℕ
max_frames [] nodes m = m
max_frames (i ∷ is) nodes m = elim (get_elem? nodes i) [
  | none ↦ max_frames is nodes m
  | some n ↦ max_frames is nodes (max m n.total_frames)
]

unfoldable pub set_max_frames : List Node → Node → Node
set_max_frames nodes n = record n { total_frames = max_frames n.inputs nodes 0 }

unfoldable pub update_mixers : List ℕ → List Node → List Node
unfolding set_max_frames
update_mixers [] nodes = nodes
update_mixers (i ∷ is) nodes = update_mixers is (modify i (set_max_frames nodes) nodes)

-- `await_all_dynamic`, for the results in the order in which the tasks send them.
unfoldable pub await_all_dynamic :
    Expected AppError Unit → List (Expected AppError Unit) → Expected AppError Unit
await_all_dynamic final_res [] = final_res
await_all_dynamic (value u) (res ∷ rest) = await_all_dynamic res rest
await_all_dynamic (unexpected e) (res ∷ rest) = await_all_dynamic (unexpected e) rest

-- `initialize_nodes`: what it leaves of the nodes is the total of frames of each file, which `open`
-- computes. `none` stands for a node that is not a file.
unfoldable pub initialize_nodes : List (Option ℕ) → List Node → List Node
initialize_nodes [] nodes = nodes
initialize_nodes totals [] = []
initialize_nodes (none ∷ ts) (n ∷ ns) = n ∷ initialize_nodes ts ns
initialize_nodes (some t ∷ ts) (n ∷ ns) = record n { total_frames = t } ∷ initialize_nodes ts ns

-- `prepare`, with the results of the downloads and the totals of the files: `none` where the fuel
-- runs out.
abbrev pub id_at : List Node → Option ℕ → ℕ → ℕ
id_at nodes none id = id
id_at nodes (some i) id = elim (get_elem? nodes i) [ none ↦ id | some n ↦ n.id ]

abbrev pub prepared :
    AudioExecutor → Option ℕ → Option (List Node) → Option (Expected AppError AudioExecutor)
prepared x start none = none
prepared x start (some nodes) = some (
    value (record x {
      nodes = nodes;
      current_node = start;
      current_node_id = id_at nodes start x.current_node_id;
      total_bytes_sent = 0;
    }))

abbrev pub after_fetch :
    ℕ
    → Graph
    → List (Option ℕ)
    → AudioExecutor
    → Expected AppError Unit
    → Option (Expected AppError AudioExecutor)
after_fetch fuel g totals x (unexpected e) = some (unexpected e)
after_fetch fuel g totals x (value u) = prepared x g.start_node (
    detect_and_flag_loops fuel g.start_node
      (update_mixers g.mixer_nodes (initialize_nodes totals x.nodes)))

abbrev pub prepare_at :
    ℕ
    → Graph
    → List (Expected AppError Unit)
    → List (Option ℕ)
    → AudioExecutor
    → Option ℕ
    → Option (Expected AppError AudioExecutor)
prepare_at fuel g fetched totals x none = some (unexpected logic_error)
prepare_at fuel g fetched totals x (some i) =
    after_fetch fuel g totals x (await_all_dynamic (value tt) fetched)

unfoldable pub prepare :
    ℕ
    → Graph
    → List (Expected AppError Unit)
    → List (Option ℕ)
    → AudioExecutor
    → Option (Expected AppError AudioExecutor)
unfolding await_all_dynamic detect_and_flag_loops update_mixers initialize_nodes
prepare fuel g fetched totals x = prepare_at fuel g fetched totals x x.current_node

-- `AudioExecutor::create`, with the constructor.
abbrev pub create_at : List Node → Option ℕ → Expected AppError AudioExecutor
create_at nodes none = unexpected logic_error
create_at nodes (some i) =
    value
      (record { nodes = nodes; current_node = some i; current_node_id = 0; total_bytes_sent = 0 })

unfoldable pub create : Graph → Expected AppError AudioExecutor
create g = create_at g.nodes g.start_node
