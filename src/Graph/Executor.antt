-- ===== src/Graph/Executor.antt =====
-- src/core/graph/AudioExecutor.cpp, with `process_frame` and `close` of the nodes it walks: which node
-- plays, and when the next one follows. The samples are not here. `ready i` says whether the buffer
-- controller of the file at index `i` has a frame at this call, and `closes i` whether its file can
-- be closed.
pub mod Delay
pub mod Chain
pub mod Loops
use hermes_flow_server.Common.{
  ℕ, zero, suc, ◌+◌, ◌*◌, ◌%◌, ◌^◌, Bool, true, false, not, ◌&&◌, Option, none, some, List, [], ◌∷◌,
  ltb, leb, if◌then◌else◌, get_elem?,
}
use hermes_flow_server.Common.Expected.{Expected, value, unexpected}
use hermes_flow_server.Types.{
  NodeErrorCode, success, underrun, end_of_stream, file_io_error, format_error, critical,
  not_supported,
}
use hermes_flow_server.Graph.{
  NodeKind, file_input, mixer, delay, clients, file_options, Node, modify, is_complete,
}

-- `config::FRAME_SIZE_BYTES`
abbrev pub frame_size_bytes : ℕ
frame_size_bytes = 320

pub record AudioExecutor : Type 0 where
  pub nodes : List Node
  pub current_node : Option ℕ
  pub current_node_id : ℕ
  pub total_bytes_sent : ℕ

-- The counters of a node that produced a frame: a file's controller counts the frames of its buffer.
abbrev pub count_frame : Node → Node
count_frame n = record n { processed_frames = n.processed_frames + 1 }

abbrev pub count_both : Node → Node
count_both n = record n {
  processed_frames = n.processed_frames + 1;
  in_buffer_processed_frames = n.in_buffer_processed_frames + 1;
}

abbrev pub rewind : Node → Node
rewind n = record n { processed_frames = 0 }

abbrev pub rewind_both : Node → Node
rewind_both n = record n { processed_frames = 0; in_buffer_processed_frames = 0 }

-- What a call leaves of the nodes, and `none` for success.
abbrev pub Called : Type 0
Called = Option NodeErrorCode × List Node

module _ (ready closes : ℕ → Bool) where
  -- `FileInputNode::process_frame`
  unfoldable pub process_file : ℕ → Option Node → List Node → Called
  process_file i none nodes = (some not_supported, nodes)
  process_file i (some n) nodes =
      if leb n.total_frames n.processed_frames && ltb 0 n.total_frames
      then (some end_of_stream, nodes)
      else (if ready i then (none, modify i count_frame nodes) else (some underrun, nodes))

  abbrev pub is_none : Option NodeErrorCode → Bool
  is_none none = true
  is_none (some e) = false

  -- The loop of `MixerNode::process_frame`: whether an input was active. No input is critical: a
  -- file's frame fails with an underrun or at the end of the stream, and the loop skips it.
  unfoldable pub mix_inputs : List ℕ → List Node → Bool × List Node
  unfolding process_file
  mix_inputs [] nodes = (false, nodes)
  mix_inputs (i ∷ is) nodes =
      let (e, nodes') = process_file i (get_elem? nodes i) nodes in
      let (active, nodes'') = mix_inputs is nodes' in
      ((if is_none e then true else active), nodes'')

  -- The frame of a mixer, after its inputs.
  abbrev pub mixed : ℕ → Bool × List Node → Called
  mixed i (true, nodes) = (none, modify i count_both nodes)
  mixed i (false, nodes) = (some end_of_stream, nodes)

  -- The virtual `process_frame`.
  unfoldable pub process_as : NodeKind → ℕ → Node → List Node → Called
  unfolding process_file mix_inputs
  process_as file_input i n nodes = process_file i (some n) nodes
  process_as mixer i n nodes = mixed i (mix_inputs n.inputs nodes)
  process_as delay i n nodes = (none, modify i count_both nodes)
  process_as clients i n nodes = (some not_supported, nodes)
  process_as file_options i n nodes = (some not_supported, nodes)

  -- `FileInputNode::close`. The refill of a node in a loop is the controller's.
  unfoldable pub close_file : ℕ → List Node → Called
  close_file i nodes =
      if closes i then (none, modify i rewind nodes) else (some file_io_error, nodes)

  unfoldable pub close_inputs : List ℕ → List Node → Called
  unfolding close_file
  close_inputs [] nodes = (none, nodes)
  close_inputs (i ∷ is) nodes =
      let rest = close_inputs is (modify i rewind nodes) in
      if closes i then rest else (some file_io_error, nodes)

  abbrev pub closed_mixer : ℕ → Called → Called
  closed_mixer i (none, nodes) = (none, modify i rewind_both nodes)
  closed_mixer i (some e, nodes) = (some e, nodes)

  -- The virtual `close`.
  unfoldable pub close_as : NodeKind → ℕ → Node → List Node → Called
  unfolding close_file close_inputs
  close_as file_input i n nodes = close_file i nodes
  close_as mixer i n nodes = closed_mixer i (close_inputs n.inputs nodes)
  close_as delay i n nodes = (none, modify i rewind_both nodes)
  close_as clients i n nodes = (none, nodes)
  close_as file_options i n nodes = (none, nodes)

  -- The identifier shown in the statistics, which an end of the graph leaves.
  abbrev pub id_of : Option Node → ℕ → ℕ
  id_of none id = id
  id_of (some n) id = n.id

  abbrev pub node_at : List Node → Option ℕ → Option Node
  node_at nodes none = none
  node_at nodes (some i) = get_elem? nodes i

  abbrev pub move_to : Option ℕ → AudioExecutor → Called → Option NodeErrorCode × AudioExecutor
  move_to target x (some e, nodes) = (some e, record x { nodes = nodes })
  move_to target x (none, nodes) = (
    none,
    record x {
      nodes = nodes;
      current_node = target;
      current_node_id = id_of (node_at nodes target) x.current_node_id;
    },
  )

  unfoldable pub advance_to_next_node :
      ℕ → Node → AudioExecutor → Option NodeErrorCode × AudioExecutor
  unfolding close_as
  advance_to_next_node i n x = move_to n.target x (close_as n.kind i n x.nodes)

  abbrev pub has_node : Option ℕ → Bool
  has_node none = false
  has_node (some i) = true

  -- The end of `get_next_frame`, after a transition or without one.
  abbrev pub sent : Option NodeErrorCode × AudioExecutor → Bool × NodeErrorCode × AudioExecutor
  sent (some e, x) = (false, e, x)
  sent (none, x) = (
    has_node x.current_node,
    success,
    record x { total_bytes_sent = (x.total_bytes_sent + frame_size_bytes) % 2 ^ 64 },
  )

  -- What follows `process_frame`, for its result and the node as the call left it.
  unfoldable pub after_process :
      ℕ → Node → Option NodeErrorCode → AudioExecutor → Bool × NodeErrorCode × AudioExecutor
  unfolding advance_to_next_node
  after_process i n none x =
      if is_complete n then sent (advance_to_next_node i n x) else sent (none, x)
  after_process i n (some not_supported) x = (false, success, x)
  after_process i n (some end_of_stream) x = sent (advance_to_next_node i n x)
  after_process i n (some underrun) x = (true, underrun, x)
  after_process i n (some e) x = (false, e, x)

  abbrev pub played_at :
      ℕ → Option NodeErrorCode → AudioExecutor → Option Node → Bool × NodeErrorCode × AudioExecutor
  played_at i e x none = (false, format_error, x)
  played_at i e x (some n) = after_process i n e x

  abbrev pub played : ℕ → AudioExecutor → Called → Bool × NodeErrorCode × AudioExecutor
  played i x (e, nodes) = played_at i e (record x { nodes = nodes }) (get_elem? nodes i)

  abbrev pub get_frame_at : ℕ → Option Node → AudioExecutor → Bool × NodeErrorCode × AudioExecutor
  get_frame_at i none x = (false, format_error, x)
  get_frame_at i (some n) x = played i x (process_as n.kind i n x.nodes)

  abbrev pub get_current : Option ℕ → AudioExecutor → Bool × NodeErrorCode × AudioExecutor
  get_current none x = (false, format_error, x)
  get_current (some i) x = get_frame_at i (get_elem? x.nodes i) x

  -- `get_next_frame`, with a buffer that is not empty: whether to go on, the status, the executor.
  unfoldable pub get_next_frame : AudioExecutor → Bool × NodeErrorCode × AudioExecutor
  unfolding process_as after_process
  get_next_frame x = get_current x.current_node x
