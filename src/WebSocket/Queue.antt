-- ===== src/WebSocket/Queue.antt =====
-- src/network/websocket/WebSocketSession.cpp: the order of the messages, and what an error does to it.
use hermes_flow_server.Common.{
  ℕ, ◌≡◌, refl, sym, ap, ◌∙◌, subst, Bool, true, false, Option, none, some, List, [], ◌∷◌, ◌++◌,
  arith, append_assoc, append-nil, if◌then◌else◌, ◌⊎◌, inl, inr,
}
use mathlib.Core.Option.{some-injective}
use hermes_flow_server.WebSocket.{
  WebSocketSession, construct, is_empty, front, do_write, send, on_write, on_accept, on_read,
  completed, Event, send_event, write_event, accept_event, read_event, step, run,
}

-- The messages that were sent.
abbrev pub sent_of : Event → List ℕ
sent_of (send_event m) = m ∷ []
sent_of (write_event b) = []
sent_of (accept_event b) = []
sent_of (read_event b) = []

abbrev pub sent : List Event → List ℕ
sent [] = []
sent (e ∷ es) = sent_of e ++ sent es

-- One write at most, and it is of the front of the queue.
pub record IsOrdered (w : WebSocketSession) : Type 0 where
  pub single : w.is_overlapped ≡ false
  pub writes_front : (w.in_flight ≡ none) ⊎ (w.in_flight ≡ front w.send_queue)

-- What a session was given so far.
abbrev pub given : WebSocketSession → List ℕ
given w = w.delivered ++ w.send_queue

-- A session by its parts.
abbrev session : List ℕ → Option ℕ → List ℕ → Bool → Bool → WebSocketSession
session queue in_flight delivered overlapped reading = record {
  send_queue = queue;
  in_flight = in_flight;
  delivered = delivered;
  is_overlapped = overlapped;
  is_reading = reading;
}

abbrev Keeps : WebSocketSession → Event → Type 0
Keeps w e = IsOrdered (step w e) × (given (step w e) ≡ given w ++ sent_of e)

send-Keeps :
    (q : List ℕ) (f : Option ℕ) (d : List ℕ) (o r : Bool) (m : ℕ)
    → IsOrdered (session q f d o r)
    → Keeps (session q f d o r) (send_event m)
unfolding step send do_write
send-Keeps [] none d o r m h =
    (record { single = h.single; writes_front = inr refl }, sym (append_assoc d [] (m ∷ [])))
send-Keeps [] (some x) d o r m h = absurd (ground (arith, h.writes_front))
send-Keeps (x ∷ q) f d o r m h = (
  record { single = h.single; writes_front = h.writes_front },
  sym (append_assoc d (x ∷ q) (m ∷ [])),
)

in_front :
    (x y : ℕ) → (◌≡◌ {A = Option ℕ} (some x) none) ⊎ (◌≡◌ {A = Option ℕ} (some x) (some y)) → x ≡ y
in_front x y (inl e) = cc
in_front x y (inr e) = some-injective x y e

write-Keeps :
    (q : List ℕ) (f : Option ℕ) (d : List ℕ) (o r b : Bool)
    → IsOrdered (session q f d o r)
    → Keeps (session q f d o r) (write_event b)
unfolding step on_write do_write
write-Keeps q none d o r b h = (h, sym (append-nil (d ++ q)))
write-Keeps q (some x) d o r true h =
    (record { single = h.single; writes_front = inl refl }, sym (append-nil (d ++ q)))
write-Keeps [] (some x) d o r false h = absurd (ground (arith, h.writes_front))
write-Keeps (y ∷ []) (some x) d o r false h = (
  record { single = h.single; writes_front = inl refl },
  ap (λ n. (d ++ n ∷ []) ++ []) (in_front x y h.writes_front),
)
write-Keeps (y ∷ z ∷ q) (some x) d o r false h = (
  record { single = h.single; writes_front = inr refl },
  append_assoc d (x ∷ []) (z ∷ q)
      ∙ ap (λ n. d ++ n ∷ z ∷ q) (in_front x y h.writes_front)
      ∙ sym (append-nil (d ++ y ∷ z ∷ q)),
)

accept-Keeps : (w : WebSocketSession) (b : Bool) → IsOrdered w → Keeps w (accept_event b)
unfolding step on_accept
accept-Keeps w true h = (h, sym (append-nil (given w)))
accept-Keeps w false h =
    (record { single = h.single; writes_front = h.writes_front }, sym (append-nil (given w)))

read-Keeps : (w : WebSocketSession) (b : Bool) → IsOrdered w → Keeps w (read_event b)
unfolding step on_read
read-Keeps w true h =
    (record { single = h.single; writes_front = h.writes_front }, sym (append-nil (given w)))
read-Keeps w false h =
    (record { single = h.single; writes_front = h.writes_front }, sym (append-nil (given w)))

pub step-Keeps : (w : WebSocketSession) (e : Event) → IsOrdered w → Keeps w e
step-Keeps w (send_event m) h =
    send-Keeps w.send_queue w.in_flight w.delivered w.is_overlapped w.is_reading m h
step-Keeps w (write_event b) h =
    write-Keeps w.send_queue w.in_flight w.delivered w.is_overlapped w.is_reading b h
step-Keeps w (accept_event b) h = accept-Keeps w b h
step-Keeps w (read_event b) h = read-Keeps w b h

run-Keeps :
    (w : WebSocketSession) (es : List Event)
    → IsOrdered w
    → IsOrdered (run w es) × (given (run w es) ≡ given w ++ sent es)
unfolding run
run-Keeps w [] h = (h, sym (append-nil (given w)))
run-Keeps w (e ∷ es) h =
    let (ordered, more) = step-Keeps w e h in
    let (ordered', all) = run-Keeps (step w e) es ordered in
    (ordered', all ∙ ap (λ l. l ++ sent es) more ∙ append_assoc (given w) (sent_of e) (sent es))

-- Whatever handlers run, and in whatever order, no write is begun during another; what was written
-- and what is still in the queue are together the messages that were sent, each once, in order.
pub run-IsOrdered :
    (es : List Event)
    → IsOrdered (run construct es)
      × ((run construct es).delivered ++ (run construct es).send_queue ≡ sent es)
run-IsOrdered es = run-Keeps construct es (record { single = refl; writes_front = inl refl })

-- A session whose write failed: nothing is being written, but there is a message in the queue.
abbrev pub IsStalled : WebSocketSession → Type 0
IsStalled w = (w.in_flight ≡ none) × (is_empty w.send_queue ≡ false)

send-IsStalled :
    (w : WebSocketSession) (m : ℕ)
    → IsStalled w
    → IsStalled (send m w) × ((send m w).delivered ≡ w.delivered)
unfolding send
send-IsStalled w m (f, q) = go w.send_queue q
  where
    still : (q : List ℕ) → is_empty q ≡ false → is_empty (q ++ m ∷ []) ≡ false
    still [] e = refl
    still (x ∷ q) e = e

    go :
        (q' : List ℕ)
        → is_empty q' ≡ false
        → IsStalled (
            if is_empty q'
            then do_write (record w { send_queue = q' ++ m ∷ [] })
            else record w { send_queue = q' ++ m ∷ [] })
          × ((if is_empty q'
                then do_write (record w { send_queue = q' ++ m ∷ [] })
                else record w { send_queue = q' ++ m ∷ [] }).delivered
              ≡ w.delivered)
    go [] e = cc
    go (x ∷ q') e = ((f, still (x ∷ q') e), refl)

step-IsStalled :
    (w : WebSocketSession) (e : Event)
    → IsStalled w
    → IsStalled (step w e) × ((step w e).delivered ≡ w.delivered)
unfolding step on_accept on_read
step-IsStalled w (send_event m) h = send-IsStalled w m h
step-IsStalled w (write_event b) h =
    subst (λ s. IsStalled s × (s.delivered ≡ w.delivered)) (sym (ap (λ f. completed b f w) h.0))
      (h, refl)
step-IsStalled w (accept_event true) h = (h, refl)
step-IsStalled w (accept_event false) h = (h, refl)
step-IsStalled w (read_event true) h = (h, refl)
step-IsStalled w (read_event false) h = (h, refl)

still-IsStalled :
    (es : List Event) (w : WebSocketSession)
    → IsStalled w
    → IsStalled (run w es) × ((run w es).delivered ≡ w.delivered)
unfolding run
still-IsStalled [] w h = (h, refl)
still-IsStalled (e ∷ es) w h =
    let (still, same) = step-IsStalled w e h in
    let (still', same') = still-IsStalled es (step w e) still in (still', same' ∙ same)

fronted : (q : List ℕ) (m : ℕ) → some m ≡ front q → is_empty q ≡ false
fronted [] m h = cc
fronted (x ∷ q) m h = refl

-- A write that is under way fails.
failed-IsStalled :
    (w : WebSocketSession) (m : ℕ)
    → w.in_flight ≡ some m
    → IsOrdered w
    → IsStalled (step w (write_event true)) × ((step w (write_event true)).delivered ≡ w.delivered)
unfolding step on_write
failed-IsStalled w m f h =
    subst (λ s. IsStalled s × (s.delivered ≡ w.delivered)) (sym (ap (λ f. completed true f w) f))
      ((refl, queued h.writes_front), refl)
  where
    queued :
        (w.in_flight ≡ none) ⊎ (w.in_flight ≡ front w.send_queue) → is_empty w.send_queue ≡ false
    queued (inl e) = cc
    queued (inr e) = fronted w.send_queue m (sym f ∙ e)

-- Whatever handlers ran before, once a write that is under way ends with an error, no message is
-- written any more, whatever handlers run after: nothing is in flight, the queue is not empty, and
-- what was written is what it was before the error.
pub run-IsStalled :
    (es later : List Event) (m : ℕ)
    → (run construct es).in_flight ≡ some m
    → let w = run construct es in
      let w' = run w (write_event true ∷ later) in IsStalled w' × (w'.delivered ≡ w.delivered)
unfolding run
run-IsStalled es later m f =
    let w = run construct es in
    let (stalled, same) = failed-IsStalled w m f (run-IsOrdered es).0 in
    let (stalled', same') = still-IsStalled later (step w (write_event true)) stalled in
    (stalled', same' ∙ same)
