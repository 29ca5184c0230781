-- ===== src/Graph/Wiring.antt =====
-- src/infra/parsers/Json2Graph.cpp and the overrides of `connect_input`: the graphs that are accepted.
use hermes_flow_server.Common.{
  ℕ, zero, suc, ◌<◌, ◌≡◌, refl, ◌∙◌, ap, Bool, true, false, Option, none, some, List, [], ◌∷◌,
  arith, get_elem?, length, map, All, All-append, sym,
}
use mathlib.Core.Option
use mathlib.Core.Option.{none-ne-some, some-injective}
use mathlib.Core.Bool.{true≢false}
use hermes_flow_server.Common.Expected.{Expected, value, unexpected}
use hermes_flow_server.Graph.{
  NodeKind, file_input, mixer, delay, clients, file_options, Node, modify, set_next, push_input,
  set_options, wire_standard, connect_as, connect_input,
}
use hermes_flow_server.Graph.Parse.{is_clients, is_clients_kind}

-- The kinds of nodes that may follow a node of a kind.
abbrev pub may_follow : NodeKind → Option NodeKind → Bool
may_follow file_input (some mixer) = true
may_follow file_input (some delay) = true
may_follow mixer (some delay) = true
may_follow delay (some file_input) = true
may_follow delay (some mixer) = true
may_follow delay (some delay) = true
may_follow file_options (some delay) = true
may_follow _ _ = false

abbrev pub is_kind_options : Option NodeKind → Bool
is_kind_options (some file_options) = true
is_kind_options _ = false

abbrev pub target_fits : List NodeKind → NodeKind → Option ℕ → Bool
target_fits ks k none = true
target_fits ks k (some t) = may_follow k (get_elem? ks t)

abbrev pub options_fit : List NodeKind → Option ℕ → Bool
options_fit ks none = true
options_fit ks (some o) = is_kind_options (get_elem? ks o)

-- A node whose pointers lead to nodes of the kinds `ks` that they are meant to.
pub record IsWired (ks : List NodeKind) (n : Node) : Type 0 where
  pub target_ok : target_fits ks n.kind n.target ≡ true
  pub inputs_ok : All (λ i. get_elem? ks i ≡ some file_input) n.inputs
  pub options_ok : options_fit ks n.options ≡ true

abbrev pub kinds : List Node → List NodeKind
kinds = map (λ n. n.kind)

All-modify :
    {P : Node → Type 0} (i : ℕ) (f : Node → Node) (ns : List Node)
    → All P ns
    → ((n : Node) → get_elem? ns i ≡ some n → P n → P (f n))
    → All P (modify i f ns)
All-modify i f [] h g = tt
All-modify zero f (n ∷ ns) h g = (g n refl h.0, h.1)
All-modify (suc i) f (n ∷ ns) h g = (h.0, All-modify i f ns h.1 g)

kinds-modify :
    (i : ℕ) (f : Node → Node) (ns : List Node)
    → ((n : Node) → (f n).kind ≡ n.kind)
    → kinds (modify i f ns) ≡ kinds ns
kinds-modify i f [] k = refl
kinds-modify zero f (n ∷ ns) k = ap (λ x. x ∷ kinds ns) (k n)
kinds-modify (suc i) f (n ∷ ns) k = ap (◌∷◌ n.kind) (kinds-modify i f ns k)

kinds-at :
    (ns : List Node) (i : ℕ) (n : Node)
    → get_elem? ns i ≡ some n
    → get_elem? (kinds ns) i ≡ some n.kind
kinds-at [] i n h = absurd (none-ne-some n h)
kinds-at (m ∷ ns) zero n h = ap (Option.map (λ x. x.kind)) h
kinds-at (m ∷ ns) (suc i) n h = kinds-at ns i n h

abbrev pub Ensures : {E A : Type 0} → (A → Type 0) → Expected E A → Type 0
Ensures P (value a) = P a
Ensures P (unexpected e) = Unit

-- Nodes with kinds `ks`, all wired.
abbrev pub Wired : List NodeKind → List Node → Type 0
Wired ks ns = All (IsWired ks) ns × (kinds ns ≡ ks)

kind-at :
    (ks : List NodeKind) (i : ℕ) (k : NodeKind) (ns : List Node) (n : Node)
    → kinds ns ≡ ks
    → get_elem? ks i ≡ some k
    → get_elem? ns i ≡ some n
    → n.kind ≡ k
kind-at ks i k ns n e h g =
    some-injective n.kind k (sym (kinds-at ns i n g) ∙ ap (λ x. get_elem? x i) e ∙ h)

wire-Wired :
    (ks : List NodeKind) (t s : ℕ) (k : NodeKind) (ns : List Node)
    → Wired ks ns
    → get_elem? ks s ≡ some k
    → may_follow k (get_elem? ks t) ≡ true
    → Wired ks (wire_standard t s ns)
wire-Wired ks t s k ns h e a = (
  All-modify s (set_next t) ns h.0 (λ n g w. record {
    target_ok = ap (λ x. may_follow x (get_elem? ks t)) (kind-at ks s k ns n h.1 e g) ∙ a;
    inputs_ok = w.inputs_ok;
    options_ok = w.options_ok;
  }),
  kinds-modify s (set_next t) ns (λ n. refl) ∙ h.1,
)

push-Wired :
    (ks : List NodeKind) (t s : ℕ) (ns : List Node)
    → Wired ks ns
    → get_elem? ks s ≡ some file_input
    → Wired ks (modify t (push_input s) ns)
push-Wired ks t s ns h e = (
  All-modify t (push_input s) ns h.0 (λ n g w. record {
    target_ok = w.target_ok;
    inputs_ok =
        All-append (λ i. get_elem? ks i ≡ some file_input) n.inputs (s ∷ []) w.inputs_ok (e, tt);
    options_ok = w.options_ok;
  }),
  kinds-modify t (push_input s) ns (λ n. refl) ∙ h.1,
)

options-Wired :
    (ks : List NodeKind) (t s : ℕ) (ns : List Node)
    → Wired ks ns
    → get_elem? ks s ≡ some file_options
    → Wired ks (modify t (set_options s) ns)
options-Wired ks t s ns h e = (
  All-modify t (set_options s) ns h.0 (λ n g w. record {
    target_ok = w.target_ok;
    inputs_ok = w.inputs_ok;
    options_ok = ap is_kind_options e;
  }),
  kinds-modify t (set_options s) ns (λ n. refl) ∙ h.1,
)

connect_as-Wired :
    (ks : List NodeKind) (kt k : NodeKind) (t s : ℕ) (ns : List Node)
    → Wired ks ns
    → get_elem? ks t ≡ some kt
    → get_elem? ks s ≡ some k
    → is_clients_kind k ≡ false
    → Ensures (Wired ks) (connect_as kt k t s ns)
unfolding connect_as
connect_as-Wired ks file_input file_input t s ns h e f c = tt
connect_as-Wired ks file_input mixer t s ns h e f c = tt
connect_as-Wired ks file_input delay t s ns h e f c =
    wire-Wired ks t s delay ns h f (ap (may_follow delay) e)
connect_as-Wired ks file_input clients t s ns h e f c = absurd (true≢false c)
connect_as-Wired ks file_input file_options t s ns h e f c = options-Wired ks t s ns h f
connect_as-Wired ks mixer file_input t s ns h e f c =
    wire-Wired ks t s file_input (modify t (push_input s) ns) (push-Wired ks t s ns h f) f
      (ap (may_follow file_input) e)
connect_as-Wired ks mixer mixer t s ns h e f c = tt
connect_as-Wired ks mixer delay t s ns h e f c =
    wire-Wired ks t s delay ns h f (ap (may_follow delay) e)
connect_as-Wired ks mixer clients t s ns h e f c = absurd (true≢false c)
connect_as-Wired ks mixer file_options t s ns h e f c = tt
connect_as-Wired ks delay file_input t s ns h e f c =
    wire-Wired ks t s file_input ns h f (ap (may_follow file_input) e)
connect_as-Wired ks delay mixer t s ns h e f c =
    wire-Wired ks t s mixer ns h f (ap (may_follow mixer) e)
connect_as-Wired ks delay delay t s ns h e f c =
    wire-Wired ks t s delay ns h f (ap (may_follow delay) e)
connect_as-Wired ks delay clients t s ns h e f c = absurd (true≢false c)
connect_as-Wired ks delay file_options t s ns h e f c =
    wire-Wired ks t s file_options ns h f (ap (may_follow file_options) e)
connect_as-Wired ks clients file_input t s ns h e f c = h
connect_as-Wired ks clients mixer t s ns h e f c = h
connect_as-Wired ks clients delay t s ns h e f c = h
connect_as-Wired ks clients clients t s ns h e f c = absurd (true≢false c)
connect_as-Wired ks clients file_options t s ns h e f c = h
connect_as-Wired ks file_options file_input t s ns h e f c = tt
connect_as-Wired ks file_options mixer t s ns h e f c = tt
connect_as-Wired ks file_options delay t s ns h e f c = tt
connect_as-Wired ks file_options clients t s ns h e f c = absurd (true≢false c)
connect_as-Wired ks file_options file_options t s ns h e f c = tt

get-below : {A : Type 0} (xs : List A) (i : ℕ) → i < length xs → (a : A) × (get_elem? xs i ≡ some a)
get-below [] i l = absurd (omega arith)
get-below (x ∷ xs) zero l = (x, refl)
get-below (x ∷ xs) (suc i) l = get-below xs i (omega arith)

pub connect_input-Wired :
    (ks : List NodeKind) (t s : ℕ) (ns : List Node)
    → Wired ks ns
    → t < length ns
    → s < length ns
    → is_clients (get_elem? ns s) ≡ false
    → Ensures (Wired ks) (connect_input t s ns)
unfolding connect_input
connect_input-Wired ks t s ns h lt ls c =
    let (tgt, et) = get-below ns t lt in
    let (src, es) = get-below ns s ls in
    let kt = ap (λ x. get_elem? x t) (sym h.1) ∙ kinds-at ns t tgt et in
    let kS = ap (λ x. get_elem? x s) (sym h.1) ∙ kinds-at ns s src es in
    rw (et, es) (connect_as-Wired ks tgt.kind src.kind t s ns h kt kS (ap is_clients (sym es) ∙ c))
