-- ===== src/Graph/Executor/Loops/Prepared.antt =====
-- src/core/graph/AudioExecutor.cpp over src/infra/parsers/Json2Graph.cpp: preparing a graph that the
-- parser accepted.
use hermes_flow_server.Common.{
  ℕ, zero, suc, ◌+◌, ◌<◌, ◌≤◌, ◌≡◌, refl, sym, ap, ◌∙◌, subst, true, false, Option, none, some,
  List, [], ◌∷◌, arith, get_elem?, length, length-map, All, ltb→lt,
}
use mathlib.Core.Option.{none-ne-some}
use mathlib.Core.Bool.{false≢true}
use hermes_flow_server.Common.Expected.{Expected, value, unexpected}
use hermes_flow_server.Types.{AppError}
use hermes_flow_server.Graph.{
  NodeKind, file_input, mixer, delay, clients, file_options, Node, Graph, modify,
}
use hermes_flow_server.Graph.Parse.{FlowJson, parse_graph}
use hermes_flow_server.Graph.Wiring.{IsWired, kinds, target_fits, may_follow, Ensures}
use hermes_flow_server.Graph.Accepted.{IsSound, starts_below, parse_graph-IsSound}
use hermes_flow_server.Graph.Executor.{AudioExecutor}
use hermes_flow_server.Graph.Executor.Loops.{
  next, set_max_frames, update_mixers, initialize_nodes, await_all_dynamic, prepare, prepare_at,
  prepared, after_fetch, create, create_at, detect_and_flag_loops, id_at,
}
use hermes_flow_server.Graph.Executor.Loops.Walk.{IsClosed, Below}
use hermes_flow_server.Graph.Executor.Loops.Flags.{Detects, detect_and_flag_loops-Detects}

-- A node may follow only if it is there.
follows_below :
    (k : NodeKind) (ks : List NodeKind) (t : ℕ)
    → may_follow k (get_elem? ks t) ≡ true
    → t < length ks
follows_below k [] t h = absurd (false≢true (sym (never k) ∙ h))
  where
    never : (k : NodeKind) → may_follow k none ≡ false
    never file_input = refl
    never mixer = refl
    never delay = refl
    never clients = refl
    never file_options = refl
follows_below k (x ∷ ks) zero h = omega arith
follows_below k (x ∷ ks) (suc t) h = omega (arith, follows_below k ks t h)

wired_next :
    (ks : List NodeKind) (ns : List Node) (i j : ℕ)
    → All (IsWired ks) ns
    → next ns i ≡ some j
    → j < length ks
wired_next ks [] i j h e = absurd (none-ne-some j e)
wired_next ks (n ∷ ns) zero j h e =
    follows_below n.kind ks j (ap (target_fits ks n.kind) (sym e) ∙ target_ok h.0)
  where
    target_ok : IsWired ks n → target_fits ks n.kind n.target ≡ true
    target_ok w = w.target_ok
wired_next ks (n ∷ ns) (suc i) j h e = wired_next ks ns i j h.1 e

IsSound-IsClosed : (g : Graph) → IsSound g → IsClosed g.nodes
IsSound-IsClosed g h i j e =
    omega
      (arith, wired_next (kinds g.nodes) g.nodes i j h.wired e, length-map g.nodes (λ n. n.kind))

starts_below-Below : (n : ℕ) (o : Option ℕ) → starts_below n o ≡ true → Below n o
starts_below-Below n none h = tt
starts_below-Below n (some i) h = ltb→lt i n h

-- The same number of nodes, with the same next nodes.
record SameShape (nodes nodes' : List Node) : Type 0 where
  size : length nodes' ≡ length nodes
  nexts : (i : ℕ) → next nodes' i ≡ next nodes i

max_frames-SameShape :
    (i : ℕ) (all nodes : List Node) → SameShape nodes (modify i (set_max_frames all) nodes)
unfolding set_max_frames
max_frames-SameShape i all [] = record { size = refl; nexts = λ j. refl }
max_frames-SameShape zero all (n ∷ ns) = record { size = refl; nexts = nexts }
  where
    nexts : (j : ℕ) → next (set_max_frames all n ∷ ns) j ≡ next (n ∷ ns) j
    nexts zero = refl
    nexts (suc j) = refl
max_frames-SameShape (suc i) all (n ∷ ns) =
    let rest = max_frames-SameShape i all ns in
    record { size = ap suc rest.size; nexts = nexts rest }
  where
    nexts :
        SameShape ns (modify i (set_max_frames all) ns)
        → (j : ℕ) → next (n ∷ modify i (set_max_frames all) ns) j ≡ next (n ∷ ns) j
    nexts rest zero = refl
    nexts rest (suc j) = rest.nexts j

update_mixers-SameShape :
    (is : List ℕ) (nodes : List Node) → SameShape nodes (update_mixers is nodes)
unfolding update_mixers
update_mixers-SameShape [] nodes = record { size = refl; nexts = λ i. refl }
update_mixers-SameShape (i ∷ is) nodes =
    let one = max_frames-SameShape i nodes nodes in
    let rest = update_mixers-SameShape is (modify i (set_max_frames nodes) nodes) in
    record { size = rest.size ∙ one.size; nexts = λ j. rest.nexts j ∙ one.nexts j }

initialize-next :
    (ts : List (Option ℕ)) (nodes : List Node) (i : ℕ)
    → next (initialize_nodes ts nodes) i ≡ next nodes i
unfolding initialize_nodes
initialize-next [] nodes i = refl
initialize-next (t ∷ ts) [] i = refl
initialize-next (none ∷ ts) (n ∷ ns) zero = refl
initialize-next (some t ∷ ts) (n ∷ ns) zero = refl
initialize-next (none ∷ ts) (n ∷ ns) (suc i) = initialize-next ts ns i
initialize-next (some t ∷ ts) (n ∷ ns) (suc i) = initialize-next ts ns i

length-initialize :
    (ts : List (Option ℕ)) (nodes : List Node) → length (initialize_nodes ts nodes) ≡ length nodes
unfolding initialize_nodes
length-initialize [] nodes = refl
length-initialize (t ∷ ts) [] = refl
length-initialize (none ∷ ts) (n ∷ ns) = ap suc (length-initialize ts ns)
length-initialize (some t ∷ ts) (n ∷ ns) = ap suc (length-initialize ts ns)

SameShape-IsClosed :
    (nodes nodes' : List Node) → SameShape nodes nodes' → IsClosed nodes → IsClosed nodes'
SameShape-IsClosed nodes nodes' s closed i j e =
    subst (λ n. j < n) (sym s.size) (closed i j (sym (s.nexts i) ∙ e))

fetched-All :
    (rs : List (Expected AppError Unit))
    → All (λ r. r ≡ value tt) rs
    → await_all_dynamic (value tt) rs ≡ value tt
unfolding await_all_dynamic
fetched-All [] h = refl
fetched-All (r ∷ rs) h = ap (λ x. await_all_dynamic x rs) h.0 ∙ fetched-All rs h.1

failed_first :
    (e : AppError) (rs : List (Expected AppError Unit))
    → await_all_dynamic (unexpected e) rs ≡ unexpected e
unfolding await_all_dynamic
failed_first e [] = refl
failed_first e (r ∷ rs) = failed_first e rs

-- The nodes as `detect_and_flag_loops` gets them.
abbrev pub initialized : Graph → List (Option ℕ) → List Node → List Node
initialized g totals nodes = update_mixers g.mixer_nodes (initialize_nodes totals nodes)

current_of : AudioExecutor → Expected AppError AudioExecutor → Option ℕ
current_of d (value x) = x.current_node
current_of d (unexpected e) = d.current_node

nodes_of : AudioExecutor → Expected AppError AudioExecutor → List Node
nodes_of d (value x) = x.nodes
nodes_of d (unexpected e) = d.nodes

created :
    (nodes : List Node) (s : Option ℕ) (x : AudioExecutor)
    → create_at nodes s ≡ value x
    → (i : ℕ) × (x.current_node ≡ some i) × (x.nodes ≡ nodes)
created nodes none x h = cc
created nodes (some i) x h =
    (i, sym (unfold current_of in ap (current_of x) h), sym (unfold nodes_of in ap (nodes_of x) h))

-- The executor of a graph that the parser accepted is prepared, whatever its loops, once all files
-- are there: with fuel for two turns more than there are nodes, `prepare` ends with a success, at the
-- start node, with no bytes sent and the nodes of the cycle, if the walk from the start comes to
-- one, flagged.
pub prepare_lem :
    (fuel : ℕ) (flow : Option FlowJson) (g : Graph) (fetched : List (Expected AppError Unit))
    (totals : List (Option ℕ)) (x : AudioExecutor)
    → parse_graph flow ≡ value g
    → create g ≡ value x
    → All (λ r. r ≡ value tt) fetched
    → length g.nodes + 2 ≤ fuel
    → (x' : AudioExecutor) × (prepare fuel g fetched totals x ≡ some (value x'))
      × (x'.current_node ≡ g.start_node)
      × (x'.total_bytes_sent ≡ 0)
      × Detects (initialized g totals g.nodes) g.start_node x'.nodes
unfolding prepare
prepare_lem fuel flow g fetched totals x p c all f =
    let sound : IsSound g = subst (Ensures IsSound) p (parse_graph-IsSound flow) in
    let (i, at, made) = created g.nodes g.start_node x (unfold create in c) in
    let shape = update_mixers-SameShape g.mixer_nodes (initialize_nodes totals g.nodes) in
    let whole : SameShape g.nodes (initialized g totals g.nodes) = record {
      size = shape.size ∙ length-initialize totals g.nodes;
      nexts = λ j. shape.nexts j ∙ initialize-next totals g.nodes j;
    } in
    let (nodes', found, what) =
      detect_and_flag_loops-Detects fuel (initialized g totals g.nodes) g.start_node
        (SameShape-IsClosed g.nodes _ whole (IsSound-IsClosed g sound))
        (subst (λ n. Below n g.start_node) (sym whole.size)
          (starts_below-Below (length g.nodes) g.start_node sound.starts))
        (omega (arith, whole.size)) in
    let x' : AudioExecutor = record x {
      nodes = nodes';
      current_node = g.start_node;
      current_node_id = id_at nodes' g.start_node x.current_node_id;
      total_bytes_sent = 0;
    } in
    (
      x',
      ap (prepare_at fuel g fetched totals x) at
          ∙ ap (after_fetch fuel g totals x) (fetched-All fetched all)
          ∙ ap
              (λ ns.
                prepared x g.start_node
                  (detect_and_flag_loops fuel g.start_node (initialized g totals ns)))
              made
          ∙ ap (prepared x g.start_node) found,
      refl,
      refl,
      what,
    )
