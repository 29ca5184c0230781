-- ===== src/Graph/Accepted.antt =====
-- src/infra/parsers/Json2Graph.cpp: what holds of a graph that `parse_graph` returns.
use hermes_flow_server.Common.{
  ℕ, ◌+◌, ◌<◌, ◌≡◌, refl, ◌∙◌, ap, Bool, true, false, Option, none, some, List, [], ◌∷◌, arith,
  if◌then◌else◌, get_elem?, length, All, All-append, length-append, length-map, ltb, lt→ltb,
  Bool-cases, inl, inr, ◌==◌, subst, sym,
}
use mathlib.Core.Option.{none-ne-some, some-injective}
use hermes_flow_server.Common.Expected.{Expected, value, unexpected, ◌>>=◌, or_fail}
use hermes_flow_server.Types.{AppError, NodeErrorCode, parse_error}
use hermes_flow_server.Graph.{
  NodeKind, file_input, mixer, delay, clients, file_options, Node, Graph, connect_input,
}
use hermes_flow_server.Graph.Parse.{
  NodeJson, EdgeJson, FlowJson, find, insert, new_node, require, classify, classify_clients,
  add_node, parse_nodes, set_start_node, as_parse_error, is_clients, parse_edge, parse_edges,
  empty_graph, parse_graph,
}
use hermes_flow_server.Graph.Wiring.{
  IsWired, Wired, target_fits, options_fit, kinds, Ensures, connect_input-Wired,
}

-- Every entry of `node_map` is a node.
abbrev pub MapsInto : ℕ → List (ℕ × ℕ) → Type 0
MapsInto size m = All (λ e. e.1 < size) m

find-below : (size id i : ℕ) (m : List (ℕ × ℕ)) → MapsInto size m → find id m ≡ some i → i < size
find-below size id i [] h e = absurd (none-ne-some i e)
find-below size id i ((k, j) ∷ m) h e = elim (Bool-cases (k == id)) [
  | inl q ↦
      subst (λ x. x < size)
        (some-injective j i (sym (ap (λ b. if b then some j else find id m) q) ∙ e)) h.0
  | inr q ↦ find-below size id i m h.1 (sym (ap (λ b. if b then some j else find id m) q) ∙ e)
]

weaken : (size : ℕ) (m : List (ℕ × ℕ)) → MapsInto size m → MapsInto (size + 1) m
weaken size [] h = tt
weaken size ((k, j) ∷ m) h = (omega (arith, h.0), weaken size m h.1)

insert-MapsInto :
    (size id : ℕ) (m : List (ℕ × ℕ)) → MapsInto size m → MapsInto (size + 1) (insert id size m)
insert-MapsInto size id [] h = (omega arith, tt)
insert-MapsInto size id ((k, j) ∷ m) h =
    ground (arith, insert-MapsInto size id m h.1, weaken size m h.1)

abbrev pub starts_below : ℕ → Option ℕ → Bool
starts_below size none = false
starts_below size (some i) = ltb i size

-- A graph that starts at a node, and in which every pointer leads to a node, and to one of a kind
-- that it may lead to.
pub record IsSound (g : Graph) : Type 0 where
  pub starts : starts_below (length g.nodes) g.start_node ≡ true
  pub wired : All (IsWired (kinds g.nodes)) g.nodes
  pub mapped : MapsInto (length g.nodes) g.node_map

-- Before the edges, no node points anywhere.
abbrev IsBare : Node → Type 0
IsBare n = (n.target ≡ none) × (n.inputs ≡ []) × (n.options ≡ none)

record IsParsed (g : Graph) : Type 0 where
  bare : All IsBare g.nodes
  mapped : MapsInto (length g.nodes) g.node_map

clients-same :
    (c : Option ℕ) (i : ℕ) (g : Graph)
    → Ensures (λ g'. (g'.nodes ≡ g.nodes) × (g'.node_map ≡ g.node_map)) (classify_clients c i g)
clients-same none i g = (refl, refl)
clients-same (some c) i g = tt

classify-same :
    (k : NodeKind) (i : ℕ) (g : Graph)
    → Ensures (λ g'. (g'.nodes ≡ g.nodes) × (g'.node_map ≡ g.node_map)) (classify k i g)
classify-same file_input i g = (refl, refl)
classify-same mixer i g = (refl, refl)
classify-same delay i g = (refl, refl)
classify-same file_options i g = (refl, refl)
classify-same clients i g = clients-same g.clients_node i g

pub Ensures-bind :
    {E A B : Type 0} (P : A → Type 0) (Q : B → Type 0) (r : Expected E A) (f : A → Expected E B)
    → Ensures P r
    → ((a : A) → P a → Ensures Q (f a))
    → Ensures Q (r >>= f)
Ensures-bind P Q (value a) f h g = g a h
Ensures-bind P Q (unexpected e) f h g = tt

require-bind :
    {B : Type 0} (Q : B → Type 0) (b : Bool) (f : Unit → Expected AppError B)
    → Ensures Q (f tt)
    → Ensures Q (require b >>= f)
require-bind Q true f h = h
require-bind Q false f h = tt

value-bind :
    {A B : Type 0} (Q : B → Type 0) (r : Expected AppError A) (f : A → Expected AppError B)
    → ((a : A) → Ensures Q (f a))
    → Ensures Q (r >>= f)
value-bind Q (value a) f h = h a
value-bind Q (unexpected e) f h = tt

pub or_fail-bind :
    {A B : Type 0} (Q : B → Type 0) (o : Option A) (e : AppError) (f : A → Expected AppError B)
    → ((a : A) → o ≡ some a → Ensures Q (f a))
    → Ensures Q (or_fail o e >>= f)
or_fail-bind Q none e f h = tt
or_fail-bind Q (some a) e f h = h a refl

add_node-IsParsed :
    (id : ℕ) (created : NodeKind × ℕ) (g : Graph)
    → IsParsed g
    → Ensures IsParsed (add_node id created g)
unfolding add_node
add_node-IsParsed id (kind, total) g h =
    let placed : Graph = record g { node_map = insert id (length g.nodes) g.node_map } in
    Ensures-bind (λ g'. (g'.nodes ≡ g.nodes) × (g'.node_map ≡ placed.node_map)) IsParsed
      (classify kind (length g.nodes) placed) _ (classify-same kind (length g.nodes) placed)
      (λ g' same. record {
        bare =
            All-append IsBare g'.nodes _ (subst (All IsBare) (sym same.0) h.bare)
              ((refl, refl, refl), tt);
        mapped =
            subst (λ size. MapsInto size g'.node_map)
              (omega
                (arith, length-append g'.nodes (new_node id kind total ∷ []), ap length same.0))
              (subst (MapsInto (length g.nodes + 1)) (sym same.1)
                (insert-MapsInto (length g.nodes) id g.node_map h.mapped));
      })

parse_nodes-IsParsed :
    (vs : List NodeJson) (g : Graph) → IsParsed g → Ensures IsParsed (parse_nodes vs g)
unfolding parse_nodes
parse_nodes-IsParsed [] g h = h
parse_nodes-IsParsed (v ∷ vs) g h = require-bind IsParsed v.is_object _ (
    or_fail-bind IsParsed v.id parse_error _ (λ id _. require-bind IsParsed v.has_type _ (
      require-bind IsParsed v.has_data _ (
        value-bind IsParsed v.created _ (λ created.
          Ensures-bind IsParsed IsParsed (add_node id created g) _
            (add_node-IsParsed id created g h) (λ g'. parse_nodes-IsParsed vs g'))))))

All-map : {P Q : Node → Type 0} (ns : List Node) → ((n : Node) → P n → Q n) → All P ns → All Q ns
All-map [] f h = tt
All-map (n ∷ ns) f h = (f n h.0, All-map ns f h.1)

bare-IsWired : (ks : List NodeKind) (n : Node) → IsBare n → IsWired ks n
bare-IsWired ks n (t, i, o) = record {
  target_ok = ap (target_fits ks n.kind) t;
  inputs_ok = subst (All (λ j. get_elem? ks j ≡ some file_input)) (sym i) tt;
  options_ok = ap (options_fit ks) o;
}

set_start_node-IsSound :
    (start_id : Option ℕ) (g : Graph) → IsParsed g → Ensures IsSound (set_start_node start_id g)
unfolding set_start_node
set_start_node-IsSound start_id g h = or_fail-bind IsSound start_id parse_error _ (λ id _.
    or_fail-bind IsSound (find id g.node_map) parse_error _ (λ i e. record {
      starts = lt→ltb _ _ (find-below (length g.nodes) id i g.node_map h.mapped e);
      wired = All-map g.nodes (bare-IsWired (kinds g.nodes)) h.bare;
      mapped = h.mapped;
    }))

-- The same graph with nodes that were connected.
connected-IsSound :
    (g : Graph) (nodes : List Node)
    → IsSound g
    → Wired (kinds g.nodes) nodes
    → IsSound (record g { nodes = nodes })
connected-IsSound g nodes h w =
    let size : length g.nodes ≡ length nodes =
      omega
        (arith, length-map nodes (λ n. n.kind), length-map g.nodes (λ n. n.kind), ap length w.1) in
    record {
      starts = ap (λ n. starts_below n g.start_node) (sym size) ∙ h.starts;
      wired = subst (λ ks. All (IsWired ks) nodes) (sym w.1) w.0;
      mapped = subst (λ n. MapsInto n g.node_map) size h.mapped;
    }

as_parse_error-Ensures :
    {A : Type 0} (P : A → Type 0) (r : Expected NodeErrorCode A)
    → Ensures P r
    → Ensures P (as_parse_error r)
as_parse_error-Ensures P (value a) h = h
as_parse_error-Ensures P (unexpected e) h = tt

connect-IsSound :
    (tgt src : ℕ) (g : Graph) (b : Bool)
    → is_clients (get_elem? g.nodes src) ≡ b
    → IsSound g
    → tgt < length g.nodes
    → src < length g.nodes
    → Ensures IsSound (
        if b then unexpected parse_error else do
          nodes ← as_parse_error (connect_input tgt src g.nodes)
          value (record g { nodes = nodes }))
connect-IsSound tgt src g true c h lt ls = tt
connect-IsSound tgt src g false c h lt ls =
    Ensures-bind (Wired (kinds g.nodes)) IsSound (as_parse_error (connect_input tgt src g.nodes)) _
      (as_parse_error-Ensures (Wired (kinds g.nodes)) (connect_input tgt src g.nodes)
        (connect_input-Wired (kinds g.nodes) tgt src g.nodes (h.wired, refl) lt ls c))
      (λ nodes w. connected-IsSound g nodes h w)

parse_edge-IsSound : (v : EdgeJson) (g : Graph) → IsSound g → Ensures IsSound (parse_edge v g)
unfolding parse_edge
parse_edge-IsSound v g h = require-bind IsSound v.is_object _ (
    or_fail-bind IsSound v.source parse_error _ (λ src_id _.
      or_fail-bind IsSound v.target parse_error _ (λ tgt_id _.
        or_fail-bind IsSound (find src_id g.node_map) parse_error _ (λ src es.
          or_fail-bind IsSound (find tgt_id g.node_map) parse_error _ (λ tgt et.
            connect-IsSound tgt src g (is_clients (get_elem? g.nodes src)) refl h
              (find-below (length g.nodes) tgt_id tgt g.node_map h.mapped et)
              (find-below (length g.nodes) src_id src g.node_map h.mapped es))))))

parse_edges-IsSound :
    (vs : List EdgeJson) (g : Graph) → IsSound g → Ensures IsSound (parse_edges vs g)
unfolding parse_edges
parse_edges-IsSound [] g h = h
parse_edges-IsSound (v ∷ vs) g h =
    Ensures-bind IsSound IsSound (parse_edge v g) _ (parse_edge-IsSound v g h)
      (λ g'. parse_edges-IsSound vs g')

-- Whatever the JSON holds, a graph that `parse_graph` accepts starts at one of its nodes; every
-- pointer in it leads to one of its nodes: a target to a node of a kind that may follow, a
-- mixer's input to a file, and a file's options to an options node.
pub parse_graph-IsSound : (flow : Option FlowJson) → Ensures IsSound (parse_graph flow)
unfolding parse_graph
parse_graph-IsSound flow_json = or_fail-bind IsSound flow_json parse_error _ (λ flow _.
    or_fail-bind IsSound flow.nodes parse_error _ (λ nodes _.
      Ensures-bind IsParsed IsSound (parse_nodes nodes empty_graph) _
        (parse_nodes-IsParsed nodes empty_graph (record { bare = tt; mapped = tt }))
        (λ g p.
          Ensures-bind IsSound IsSound (set_start_node flow.start_id g) _
            (set_start_node-IsSound flow.start_id g p)
            (λ g' h.
              or_fail-bind IsSound flow.edges parse_error _
                (λ edges _. parse_edges-IsSound edges g' h)))))
