-- ===== src/Graph/Executor/Loops/Setting.antt =====
-- src/core/graph/AudioExecutor.cpp and the overrides of `set_in_loop`: what one call of it changes.
use hermes_flow_server.Common.{
  ℕ, zero, suc, ◌≡◌, refl, sym, ◌∙◌, Bool, true, false, Option, none, some, List, [], ◌∷◌,
  get_elem?,
}
use mathlib.Core.Option.{none-ne-some}
use hermes_flow_server.Graph.{
  NodeKind, file_input, mixer, delay, clients, file_options, Node, modify,
}
use hermes_flow_server.Graph.Executor.Loops.{next, set_flag, set_flags, set_in_loop_as, set_in_loop}

abbrev pub flag_of : Option Node → Bool
flag_of none = false
flag_of (some n) = n.is_in_loop

abbrev pub flagged : List Node → ℕ → Bool
flagged nodes i = flag_of (get_elem? nodes i)

modify-next :
    (i j : ℕ) (b : Bool) (nodes : List Node) → next (modify i (set_flag b) nodes) j ≡ next nodes j
modify-next i j b [] = refl
modify-next zero zero b (n ∷ ns) = refl
modify-next zero (suc j) b (n ∷ ns) = refl
modify-next (suc i) zero b (n ∷ ns) = refl
modify-next (suc i) (suc j) b (n ∷ ns) = modify-next i j b ns

set_flags-next :
    (is : List ℕ) (j : ℕ) (b : Bool) (nodes : List Node)
    → next (set_flags is b nodes) j ≡ next nodes j
set_flags-next [] j b nodes = refl
set_flags-next (i ∷ is) j b nodes =
    set_flags-next is j b (modify i (set_flag b) nodes) ∙ modify-next i j b nodes

modify-flagged :
    (i j : ℕ) (nodes : List Node)
    → flagged nodes j ≡ true
    → flagged (modify i (set_flag true) nodes) j ≡ true
modify-flagged i j [] h = h
modify-flagged zero zero (n ∷ ns) h = refl
modify-flagged zero (suc j) (n ∷ ns) h = h
modify-flagged (suc i) zero (n ∷ ns) h = h
modify-flagged (suc i) (suc j) (n ∷ ns) h = modify-flagged i j ns h

set_flags-flagged :
    (is : List ℕ) (j : ℕ) (nodes : List Node)
    → flagged nodes j ≡ true
    → flagged (set_flags is true nodes) j ≡ true
set_flags-flagged [] j nodes h = h
set_flags-flagged (i ∷ is) j nodes h =
    set_flags-flagged is j (modify i (set_flag true) nodes) (modify-flagged i j nodes h)

modify-flagged_self :
    (i : ℕ) (n : Node) (nodes : List Node)
    → get_elem? nodes i ≡ some n
    → flagged (modify i (set_flag true) nodes) i ≡ true
modify-flagged_self i n [] h = absurd (none-ne-some n h)
modify-flagged_self zero n (m ∷ ns) h = refl
modify-flagged_self (suc i) n (m ∷ ns) h = modify-flagged_self i n ns h

-- What one call of `set_in_loop(true)` does to the nodes.
pub record Sets (i : ℕ) (nodes nodes' : List Node) : Type 0 where
  pub same : (j : ℕ) → next nodes' j ≡ next nodes j
  pub kept : (j : ℕ) → flagged nodes j ≡ true → flagged nodes' j ≡ true
  pub set : (n : Node) → get_elem? nodes i ≡ some n → flagged nodes' i ≡ true

modify-Sets : (i : ℕ) (nodes : List Node) → Sets i nodes (modify i (set_flag true) nodes)
modify-Sets i nodes = record {
  same = λ j. modify-next i j true nodes;
  kept = λ j h. modify-flagged i j nodes h;
  set = λ n h. modify-flagged_self i n nodes h;
}

inputs-Sets :
    (is : List ℕ) (i : ℕ) (nodes : List Node)
    → Sets i nodes (set_flags is true (modify i (set_flag true) nodes))
inputs-Sets is i nodes =
    let one = modify i (set_flag true) nodes in
    record {
      same = λ j. set_flags-next is j true one ∙ modify-next i j true nodes;
      kept = λ j h. set_flags-flagged is j one (modify-flagged i j nodes h);
      set = λ n h. set_flags-flagged is i one (modify-flagged_self i n nodes h);
    }

kind-Sets :
    (k : NodeKind) (i : ℕ) (is : List ℕ) (nodes : List Node)
    → Sets i nodes (elim k [
      | mixer ↦ set_flags is true (modify i (set_flag true) nodes)
      | _ ↦ modify i (set_flag true) nodes
    ])
kind-Sets file_input i is nodes = modify-Sets i nodes
kind-Sets mixer i is nodes = inputs-Sets is i nodes
kind-Sets delay i is nodes = modify-Sets i nodes
kind-Sets clients i is nodes = modify-Sets i nodes
kind-Sets file_options i is nodes = modify-Sets i nodes

pub set_in_loop-Sets : (i : ℕ) (nodes : List Node) → Sets i nodes (set_in_loop i true nodes)
unfolding set_in_loop
set_in_loop-Sets i nodes = at (get_elem? nodes i) refl
  where
    at : (o : Option Node) → get_elem? nodes i ≡ o → Sets i nodes (set_in_loop_as o i true nodes)
    at none e = record {
      same = λ j. refl;
      kept = λ j h. h;
      set = λ n h. absurd (none-ne-some n (sym e ∙ h));
    }
    at (some n) e = kind-Sets n.kind i n.inputs nodes
