-- ===== src/Session/Loop/Drift.antt =====
-- src/core/session/Session.cpp, `wait_for_next_tick`: the times that the loop waits for.
use hermes_flow_server.Common.{
  ℕ, ◌+◌, ◌*◌, ◌≡◌, refl, Bool, true, false, List, [], ◌∷◌, ap, sym, ◌∙◌, if◌then◌else◌, arith, All,
  length, suc,
}
use mathlib.Core.Bool.{false≢true}
use hermes_flow_server.Types.{NodeErrorCode}
use hermes_flow_server.Session.{tick, is_ticking}
use hermes_flow_server.Graph.Executor.{AudioExecutor, get_next_frame}
use hermes_flow_server.Session.Loop.{
  Playing, Happening, stop_called, late_stop_called, pause_called, resume_called, aborted, begun,
  woken, fired, play, play_all, on_tick, ticked, armed, audio_tick_interval,
}
use hermes_flow_server.Session.Loop.Effects.{tick-frames, tick-stops, streamed-lem}

later_tick :
    (x n : ℕ) → x + audio_tick_interval + audio_tick_interval * n ≡ x + audio_tick_interval * suc n
later_tick x n = omega arith

one_after : (x n : ℕ) → x + 1 + n ≡ x + suc n
one_after x n = omega arith

module _ {Ratio : Type 0} where
  abbrev is_tick : Happening Ratio → Bool
  is_tick (fired ready closes frame t) = true
  is_tick _ = false

module _ {Ratio : Type 0} (no_loss : Ratio) (is_positive : Ratio → Bool) (below : ℕ → Ratio → Bool)
    (table : List ℕ) where
  -- Only ticks of the timer.
  abbrev pub AreTicks : List (Happening Ratio) → Type 0
  AreTicks = All (λ e. is_tick e ≡ true)

  ticked-steady :
      (frame : List ℕ) (t : ℕ) (p : Playing Ratio) (r : Bool × NodeErrorCode × AudioExecutor)
      → let q = ticked is_positive below table frame t p r in
        is_ticking q.session.position ≡ true
        → (q.next_tick ≡ p.next_tick + audio_tick_interval)
          × (q.session.frames_sent ≡ p.session.frames_sent + 1)
  unfolding ticked armed
  ticked-steady frame t p (true, status, x) h =
      let p' : Playing Ratio = record p { executor = x; session = tick true status p.session } in
      let (same, clock) = streamed-lem is_positive below table frame t p' in
      (
        rw (h) (ap (λ n. n + audio_tick_interval) clock),
        ap (λ s. s.frames_sent) same ∙ tick-frames true status p.session,
      )
  ticked-steady frame t p (false, status, x) h =
      absurd (false≢true (sym (tick-stops status p.session) ∙ h))

  -- Where the second is taken, so is the first.
  fired-steady :
      (b : Bool) (p q : Playing Ratio)
      → is_ticking p.session.position ≡ b
      → let r = if b then q else p in
        is_ticking r.session.position ≡ true
        → (b ≡ true) × (r ≡ q) × (is_ticking q.session.position ≡ true)
  fired-steady true p q e h = (refl, refl, h)
  fired-steady false p q e h = absurd (false≢true (sym e ∙ h))

  -- The loop does not drift: after any number of ticks, however late the timer fired for each, if
  -- the session still waits for a tick then each sent a frame, and the time it waits for is 20 ms
  -- later for each.
  pub play_all-ticks :
      (p : Playing Ratio) (es : List (Happening Ratio))
      → AreTicks es
      → let q = play_all no_loss is_positive below table p es in
        is_ticking q.session.position ≡ true
        → (q.next_tick ≡ p.next_tick + audio_tick_interval * length es)
          × (q.session.frames_sent ≡ p.session.frames_sent + length es)
          × (is_ticking p.session.position ≡ true)
  unfolding play_all play on_tick
  play_all-ticks p [] a h = (omega arith, omega arith, h)
  play_all-ticks p (fired ready closes frame t ∷ es) a h =
      let (clock, frames, still) =
        play_all-ticks (play no_loss is_positive below table p (fired ready closes frame t)) es a.1
          h in
      let (ticks, e, still') =
        fired-steady (is_ticking p.session.position) p
          (on_tick is_positive below table ready closes frame t p) refl still in
      let (clock', frames') =
        ticked-steady frame t p (get_next_frame ready closes p.executor) still' in
      (
        clock
            ∙ ap (λ q. q.next_tick + audio_tick_interval * length es) (e)
            ∙ ap (λ n. n + audio_tick_interval * length es) clock'
            ∙ later_tick p.next_tick (length es),
        frames
            ∙ ap (λ q. q.session.frames_sent + length es) (e)
            ∙ ap (λ n. n + length es) frames'
            ∙ one_after p.session.frames_sent (length es),
        ticks,
      )
  play_all-ticks p (stop_called ∷ es) a h = absurd (false≢true a.0)
  play_all-ticks p (late_stop_called ∷ es) a h = absurd (false≢true a.0)
  play_all-ticks p (pause_called ∷ es) a h = absurd (false≢true a.0)
  play_all-ticks p (resume_called ∷ es) a h = absurd (false≢true a.0)
  play_all-ticks p (aborted ∷ es) a h = absurd (false≢true a.0)
  play_all-ticks p (begun prepared janus clients t ∷ es) a h = absurd (false≢true a.0)
  play_all-ticks p (woken t ∷ es) a h = absurd (false≢true a.0)
