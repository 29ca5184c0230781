-- ===== src/Rtp/Streamer/Clients.antt =====
-- src/network/rtp/RTPStreamer.cpp, `add_client` and `remove_client`: no endpoint is registered twice.
use hermes_flow_server.Common.{
  ◌≡◌, refl, true, false, List, [], ◌∷◌, ◌++◌, none, some, if◌then◌else◌, Bool-cases, inl, inr,
  arith,
}
use hermes_flow_server.Rtp.Streamer.{
  Endpoint, RtpClientTarget, RtpStreamer, same, has_endpoint, erase, add_client, remove_client,
}

module _ {Ratio : Type 0} where
  -- No two clients have the same endpoint.
  abbrev pub AreDistinct : List (RtpClientTarget Ratio) → Type 0
  AreDistinct [] = Unit
  AreDistinct (c ∷ cs) = (has_endpoint c.endpoint cs ≡ false) × AreDistinct cs

  has_endpoint-append :
      (ep : Endpoint) (cs : List (RtpClientTarget Ratio)) (c : RtpClientTarget Ratio)
      → has_endpoint ep (cs ++ c ∷ []) ≡ (if same c.endpoint ep then true else has_endpoint ep cs)
  has_endpoint-append ep [] c = refl
  has_endpoint-append ep (x ∷ cs) c = ground (arith, has_endpoint-append ep cs c)

  AreDistinct-append :
      (cs : List (RtpClientTarget Ratio)) (c : RtpClientTarget Ratio)
      → AreDistinct cs
      → has_endpoint c.endpoint cs ≡ false
      → AreDistinct (cs ++ c ∷ [])
  AreDistinct-append [] c d h = (refl, tt)
  AreDistinct-append (x ∷ cs) c d h =
      ground (arith, AreDistinct-append cs c d.1, has_endpoint-append x.endpoint cs c)

  has_endpoint-erase :
      (ep other : Endpoint) (cs : List (RtpClientTarget Ratio))
      → has_endpoint other (erase ep cs) ≡ (if same ep other then false else has_endpoint other cs)
  has_endpoint-erase ep other [] = ground arith
  has_endpoint-erase ep other (x ∷ cs) = ground (arith, has_endpoint-erase ep other cs)

  AreDistinct-erase :
      (ep : Endpoint) (cs : List (RtpClientTarget Ratio))
      → AreDistinct cs
      → AreDistinct (erase ep cs)
  AreDistinct-erase ep [] d = tt
  AreDistinct-erase ep (x ∷ cs) d =
      ground (arith, AreDistinct-erase ep cs d.1, has_endpoint-erase ep x.endpoint cs)

  has_endpoint-same :
      (ep other : Endpoint) (cs : List (RtpClientTarget Ratio))
      → same ep other ≡ true
      → has_endpoint other cs ≡ has_endpoint ep cs
  has_endpoint-same ep other [] h = refl
  has_endpoint-same ep other (x ∷ cs) h = ground (arith, has_endpoint-same ep other cs h)

  -- Adding a client keeps the endpoints distinct, registers this one and leaves every other as it
  -- was; a text that cannot be resolved changes nothing.
  pub add_client_lem :
      (s : RtpStreamer Ratio) (ep other : Endpoint) (ratio : Ratio)
      → AreDistinct s.clients
      → AreDistinct (add_client s (some ep) ratio).clients
        × (has_endpoint other (add_client s (some ep) ratio).clients
            ≡ (if same ep other then true else has_endpoint other s.clients))
        × (add_client s none ratio ≡ s)
  unfolding add_client
  add_client_lem s ep other ratio d =
      let c : RtpClientTarget Ratio = record { endpoint = ep; packet_loss_ratio = ratio } in
      elim (Bool-cases (has_endpoint ep s.clients)) [
        | inl e ↦ rw e (d, ground (arith, has_endpoint-same ep other s.clients), refl)
        | inr e ↦
            rw e (AreDistinct-append s.clients c d e, has_endpoint-append other s.clients c, refl)
      ]

  -- Removing a client keeps the endpoints distinct, and exactly this endpoint is gone.
  pub remove_client_lem :
      (s : RtpStreamer Ratio) (ep other : Endpoint)
      → AreDistinct s.clients
      → AreDistinct (remove_client s (some ep)).clients
        × (has_endpoint other (remove_client s (some ep)).clients
            ≡ (if same ep other then false else has_endpoint other s.clients))
  unfolding remove_client
  remove_client_lem s ep other d =
      (AreDistinct-erase ep s.clients d, has_endpoint-erase ep other s.clients)
