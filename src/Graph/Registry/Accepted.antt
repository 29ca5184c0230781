-- ===== src/Graph/Registry/Accepted.antt =====
-- src/core/graph/NodeRegistry.cpp: the clients that are accepted.
use hermes_flow_server.Common.{
  ℕ, ◌+◌, ◌^◌, ◌<◌, ◌≡◌, refl, sym, ap, ◌∙◌, subst, Bool, true, false, ◌||◌, Option, none, some,
  List, [], ◌∷◌, ◌++◌, arith, if◌then◌else◌, append_assoc, append-nil,
}
use hermes_flow_server.Common.Expected.{Expected, value, unexpected}
use hermes_flow_server.Common.Int.{pos, negsuc}
use hermes_flow_server.Audio.Pcm.{to_u16}
use hermes_flow_server.Types.{AppError, parse_error}
use hermes_flow_server.Graph.Wiring.{Ensures}
use hermes_flow_server.Graph.Accepted.{or_fail-bind, Ensures-bind}
use hermes_flow_server.Graph.Registry.{
  PortJson, int64_port, string_port, other_port, parse_port, LossJson, number, string_loss,
  other_loss, loss_value, parse_loss_ratio, ClientConfig, ClientJson, loss_or_zero, parse_client,
  Thrown, returned, thrown, next_client, parse_clients, create_clients,
}

-- What `from_chars` gives into a `uint16_t`.
abbrev pub PortFits : PortJson → Type 0
PortFits (string_port (some p)) = p < 2 ^ 16
PortFits (string_port none) = Unit
PortFits (int64_port n) = Unit
PortFits other_port = Unit

-- The port that is asked for: a number modulo 2^16, or what a string was read as.
abbrev pub AsksPort : Option PortJson → ℕ → Type 0
AsksPort (some (int64_port n)) p = p ≡ to_u16 n
AsksPort (some (string_port (some q))) p = p ≡ q
AsksPort (some (string_port none)) p = false ≡ true
AsksPort (some other_port) p = false ≡ true
AsksPort none p = false ≡ true

parse_port-Ensures :
    (j : PortJson) → PortFits j → Ensures (λ p. AsksPort (some j) p × (p < 2 ^ 16)) (parse_port j)
unfolding parse_port
parse_port-Ensures (int64_port (pos n)) f = (refl, omega arith)
parse_port-Ensures (int64_port (negsuc n)) f = (refl, omega arith)
parse_port-Ensures (string_port none) f = tt
parse_port-Ensures (string_port (some p)) f = (refl, f)
parse_port-Ensures other_port f = tt

abbrev pub OptionalFits : Option PortJson → Type 0
OptionalFits none = Unit
OptionalFits (some j) = PortFits j

module _ (Real : Type 0) (is_below_zero is_above_one : Real → Bool) (zero_ratio : Real) where
  -- The loss ratio that is asked for, which is 0 where there is none.
  abbrev pub AsksLoss : Option (LossJson Real is_below_zero is_above_one zero_ratio) → Real → Type 0
  AsksLoss none x = x ≡ zero_ratio
  AsksLoss (some (number y)) x = x ≡ y
  AsksLoss (some (string_loss (some y))) x = x ≡ y
  AsksLoss (some (string_loss none)) x = false ≡ true
  AsksLoss (some other_loss) x = false ≡ true

  -- A client as its element asks for it: this address, this port, in 16 bits, and this loss ratio,
  -- which neither of the two tests refuses.
  pub record IsValid (v : ClientJson Real is_below_zero is_above_one zero_ratio)
      (c : ClientConfig Real is_below_zero is_above_one zero_ratio) : Type 0 where
    pub same_ip : v.ip ≡ some c.ip
    pub port_asked : AsksPort v.port c.port
    pub port_fits : c.port < 2 ^ 16
    pub ratio_asked : AsksLoss v.loss_ratio c.packet_loss_ratio
    pub ratio_fits : is_below_zero c.packet_loss_ratio || is_above_one c.packet_loss_ratio ≡ false

  InRange : Real → Type 0
  InRange x = is_below_zero x || is_above_one x ≡ false

  parse_loss_ratio-Ensures :
      (l : LossJson Real is_below_zero is_above_one zero_ratio)
      → Ensures
          (λ x. AsksLoss (some l) x × InRange x)
          (parse_loss_ratio Real is_below_zero is_above_one zero_ratio l)
  unfolding parse_loss_ratio InRange
  parse_loss_ratio-Ensures l =
      Ensures-bind (AsksLoss (some l)) (λ x. AsksLoss (some l) x × InRange x)
        (loss_value Real is_below_zero is_above_one zero_ratio l) _ (asked l)
        (λ x a. in_range x a (is_below_zero x || is_above_one x) refl)
    where
      asked :
          (l : LossJson Real is_below_zero is_above_one zero_ratio)
          → Ensures (AsksLoss (some l)) (loss_value Real is_below_zero is_above_one zero_ratio l)
      asked (number y) = refl
      asked (string_loss (some y)) = refl
      asked (string_loss none) = tt
      asked other_loss = tt

      in_range :
          (x : Real)
          → AsksLoss (some l) x
          → (b : Bool) → is_below_zero x || is_above_one x ≡ b
          → Ensures
              (λ x. AsksLoss (some l) x × InRange x)
              (if◌then◌else◌ {A = Expected AppError Real} b (unexpected parse_error) (value x))
      in_range x a true e = tt
      in_range x a false e = (a, e)

  loss_or_zero-Ensures :
      (l : Option (LossJson Real is_below_zero is_above_one zero_ratio))
      → InRange zero_ratio
      → Ensures
          (λ x. AsksLoss l x × InRange x)
          (loss_or_zero Real is_below_zero is_above_one zero_ratio l)
  loss_or_zero-Ensures none z = (refl, z)
  loss_or_zero-Ensures (some l) z = parse_loss_ratio-Ensures l

  parse_client-Ensures :
      (v : ClientJson Real is_below_zero is_above_one zero_ratio)
      → InRange zero_ratio
      → OptionalFits v.port
      → Ensures (IsValid v) (parse_client Real is_below_zero is_above_one zero_ratio v)
  unfolding parse_client InRange
  parse_client-Ensures v z f = or_fail-bind (IsValid v) v.ip parse_error _ (λ ip same.
      or_fail-bind (IsValid v) v.port parse_error _ (λ j found.
        Ensures-bind (λ p. AsksPort (some j) p × (p < 2 ^ 16)) (IsValid v) (parse_port j) _
          (parse_port-Ensures j (subst OptionalFits found f))
          (λ p fits.
            Ensures-bind (λ x. AsksLoss v.loss_ratio x × InRange x) (IsValid v)
              (loss_or_zero Real is_below_zero is_above_one zero_ratio v.loss_ratio) _
              (loss_or_zero-Ensures v.loss_ratio z)
              (λ x r. record {
                same_ip = same;
                port_asked = subst (λ o. AsksPort o p) (sym found) fits.0;
                port_fits = fits.1;
                ratio_asked = r.0;
                ratio_fits = r.1;
              }))))

  -- The clients in the order of their elements.
  abbrev pub AllValid :
      List (ClientJson Real is_below_zero is_above_one zero_ratio)
      → List (ClientConfig Real is_below_zero is_above_one zero_ratio)
      → Type 0
  AllValid [] [] = Unit
  AllValid [] (c ∷ cs) = false ≡ true
  AllValid (v ∷ vs) [] = false ≡ true
  AllValid (v ∷ vs) (c ∷ cs) = IsValid v c × AllValid vs cs

  -- A list that was accepted has them after those before.
  abbrev pub Accepts :
      List (ClientJson Real is_below_zero is_above_one zero_ratio)
      → List (ClientConfig Real is_below_zero is_above_one zero_ratio)
      → Thrown Real is_below_zero is_above_one zero_ratio
          (List (ClientConfig Real is_below_zero is_above_one zero_ratio))
      → Type 0
  Accepts vs acc (returned (value cs)) =
      (more : List (ClientConfig Real is_below_zero is_above_one zero_ratio)) × (cs ≡ acc ++ more)
      × AllValid vs more
  Accepts vs acc (returned (unexpected e)) = Unit
  Accepts vs acc thrown = Unit

  abbrev pub AllFit : List (ClientJson Real is_below_zero is_above_one zero_ratio) → Type 0
  AllFit [] = Unit
  AllFit (v ∷ vs) = OptionalFits v.port × AllFit vs

  next-Accepts :
      (v : ClientJson Real is_below_zero is_above_one zero_ratio)
      (vs : List (ClientJson Real is_below_zero is_above_one zero_ratio))
      (acc : List (ClientConfig Real is_below_zero is_above_one zero_ratio)) (b : Bool)
      (r : Expected AppError (ClientConfig Real is_below_zero is_above_one zero_ratio))
      (rest : List (ClientConfig Real is_below_zero is_above_one zero_ratio)
        → Thrown Real is_below_zero is_above_one zero_ratio
            (List (ClientConfig Real is_below_zero is_above_one zero_ratio)))
      → Ensures (IsValid v) r
      → ((acc' : List (ClientConfig Real is_below_zero is_above_one zero_ratio))
          → Accepts vs acc' (rest acc'))
      → Accepts (v ∷ vs) acc (next_client Real is_below_zero is_above_one zero_ratio b r acc rest)
  next-Accepts v vs acc false r rest h k = tt
  next-Accepts v vs acc true (unexpected e) rest h k = tt
  next-Accepts v vs acc true (value c) rest h k = grown (rest (acc ++ c ∷ [])) (k (acc ++ c ∷ []))
    where
      grown :
          (o : Thrown Real is_below_zero is_above_one zero_ratio
            (List (ClientConfig Real is_below_zero is_above_one zero_ratio)))
          → Accepts vs (acc ++ c ∷ []) o
          → Accepts (v ∷ vs) acc o
      grown (returned (value cs)) (more, e, valid) =
          (c ∷ more, e ∙ append_assoc acc (c ∷ []) more, (h, valid))
      grown (returned (unexpected e)) a = tt
      grown thrown a = tt

  parse_clients-Accepts :
      (vs : List (ClientJson Real is_below_zero is_above_one zero_ratio))
      (acc : List (ClientConfig Real is_below_zero is_above_one zero_ratio))
      → InRange zero_ratio
      → AllFit vs
      → Accepts vs acc (parse_clients Real is_below_zero is_above_one zero_ratio vs acc)
  unfolding parse_clients
  parse_clients-Accepts [] acc z f = ([], sym (append-nil acc), tt)
  parse_clients-Accepts (v ∷ vs) acc z f =
      next-Accepts v vs acc v.is_object (parse_client Real is_below_zero is_above_one zero_ratio v)
        (parse_clients Real is_below_zero is_above_one zero_ratio vs) (parse_client-Ensures v z f.0)
        (λ acc'. parse_clients-Accepts vs acc' z f.1)

  -- The clients that `create_clients` accepts are those of its elements, all of them and in their
  -- order, each with the address, the port (a number modulo 2^16) and the loss ratio (0 where there
  -- is none) that its element asks for; the port has 16 bits, and neither of the tests for a loss
  -- ratio below 0 or above 1 holds, which lets a NaN pass. The ratio 0 passes them, and a port that
  -- was read from a string has 16 bits.
  pub create_clients-AllValid :
      (vs : List (ClientJson Real is_below_zero is_above_one zero_ratio))
      (cs : List (ClientConfig Real is_below_zero is_above_one zero_ratio))
      → is_below_zero zero_ratio || is_above_one zero_ratio ≡ false
      → AllFit vs
      → create_clients Real is_below_zero is_above_one zero_ratio (some (some vs))
        ≡ returned (value cs)
      → AllValid vs cs
  unfolding create_clients InRange
  create_clients-AllValid vs cs z f e =
      let (more, same, valid) = subst (Accepts vs []) e (parse_clients-Accepts vs [] z f) in
      subst (AllValid vs) (sym same) valid

-- Numbers that differ by 2^16 are accepted as the same port, so that 65536 and more are accepted as
-- well.
pub parse_port_wraps :
    (n : ℕ) → parse_port (int64_port (pos (n + 2 ^ 16))) ≡ parse_port (int64_port (pos n))
unfolding parse_port
parse_port_wraps n = ap value (omega arith)
