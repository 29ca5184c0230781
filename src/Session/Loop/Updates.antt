-- ===== src/Session/Loop/Updates.antt =====
-- src/core/session/Session.cpp, `update_stats_if_needed`: how often the observer is shown the statistics.
use hermes_flow_server.Common.{
  if-holds, ℕ, ◌+◌, ◌≤◌, ◌<◌, ◌≡◌, refl, Bool, true, false, List, [], ◌∷◌, sym, subst, arith,
  Option, ltb,
}
use hermes_flow_server.Types.{NodeErrorCode}
use hermes_flow_server.Session.{is_idle, is_ticking}
use hermes_flow_server.Graph.Executor.{AudioExecutor, get_next_frame}
use hermes_flow_server.Rtp.Streamer.{Endpoint}
use hermes_flow_server.Session.Loop.{
  Playing, Happening, Target, SessionStats, stop_called, late_stop_called, pause_called,
  resume_called, aborted, begun, woken, fired, play, play_all, on_tick, on_begin, on_wake, ticked,
  armed, streamed, update_stats_if_needed, stats_update_interval,
}
use hermes_flow_server.Session.Loop.Pace.{time_of, AreTimed, last_time}

-- Each update is more than 100 ms before the one after it, and the last one before `limit`.
abbrev Spaced : ℕ → List (ℕ × SessionStats) → Type 0
Spaced limit [] = Unit
Spaced limit ((t, s) ∷ us) = (t + stats_update_interval < limit) × Spaced t us

abbrev pub AreSpaced : List (ℕ × SessionStats) → Type 0
AreSpaced [] = Unit
AreSpaced ((t, s) ∷ us) = Spaced t us

Spaced-weaken : (a b : ℕ) (us : List (ℕ × SessionStats)) → a ≤ b → Spaced a us → Spaced b us
Spaced-weaken a b [] h v = tt
Spaced-weaken a b ((t, s) ∷ us) h (l, v) = (omega arith, v)

Spaced-AreSpaced : (a : ℕ) (us : List (ℕ × SessionStats)) → Spaced a us → AreSpaced us
Spaced-AreSpaced a [] v = tt
Spaced-AreSpaced a ((t, s) ∷ us) v = v.1

module _ {Ratio : Type 0} where
  -- The updates so far were 100 ms apart, and the clock of the statistics is not behind them.
  record IsRegular (now : ℕ) (p : Playing Ratio) : Type 0 where
    pub passed : p.last_stats_time ≤ now
    pub spaced : Spaced (p.last_stats_time + stats_update_interval + 1) p.updates

  -- The same updates, under a clock that is not set back.
  same-IsRegular :
      (now t : ℕ) (p q : Playing Ratio)
      → IsRegular now p
      → q.updates ≡ p.updates
      → p.last_stats_time ≤ q.last_stats_time
      → q.last_stats_time ≤ t
      → IsRegular t q
  same-IsRegular now t p q v e l m = record {
    passed = m;
    spaced = rw (e) (
        Spaced-weaken (p.last_stats_time + stats_update_interval + 1)
          (q.last_stats_time + stats_update_interval + 1) p.updates (omega arith) v.spaced);
  }

  updated-IsRegular :
      (now t : ℕ) (p : Playing Ratio)
      → IsRegular now p
      → now ≤ t
      → IsRegular t (update_stats_if_needed t p)
  unfolding update_stats_if_needed
  updated-IsRegular now t p v l =
      let later = same-IsRegular now t p p v refl (omega arith) (omega (arith, v.passed)) in
      if-holds (IsRegular t) p.session.has_observer _ p
        (λ _.
          if-holds (IsRegular t) (ltb (p.last_stats_time + stats_update_interval) t) _ p
            (λ e. record {
              passed = omega arith;
              spaced = (
                omega arith,
                Spaced-weaken (p.last_stats_time + stats_update_interval + 1) t p.updates
                    (ground arith) v.spaced,
              );
            })
            (λ _. later))
        (λ _. later)

  begun-IsRegular :
      (now t : ℕ) (no_loss : Ratio) (prepared : Bool) (janus : Option Endpoint)
      (clients : Option (List (Target Ratio))) (p : Playing Ratio)
      → IsRegular now p
      → now ≤ t
      → IsRegular t (on_begin no_loss prepared janus clients t p)
  unfolding on_begin armed
  begun-IsRegular now t no_loss true janus clients p v l =
      same-IsRegular now t p _ v refl (omega (arith, v.passed)) (omega arith)
  begun-IsRegular now t no_loss false janus clients p v l =
      same-IsRegular now t p _ v refl (omega arith) (omega (arith, v.passed))

  woken-IsRegular :
      (now t : ℕ) (p : Playing Ratio) → IsRegular now p → now ≤ t → IsRegular t (on_wake t p)
  unfolding on_wake armed
  woken-IsRegular now t p v l =
      same-IsRegular now t p _ v refl (omega (arith, v.passed)) (omega arith)

module _ {Ratio : Type 0} (is_positive : Ratio → Bool) (below : ℕ → Ratio → Bool)
    (table : List ℕ) where
  ticked-IsRegular :
      (now t : ℕ) (frame : List ℕ) (p : Playing Ratio) (r : Bool × NodeErrorCode × AudioExecutor)
      → IsRegular now p
      → now ≤ t
      → IsRegular t (ticked is_positive below table frame t p r)
  unfolding ticked streamed armed
  ticked-IsRegular now t frame p (true, status, x) v l =
      let u = updated-IsRegular now t _ (record { passed = v.passed; spaced = v.spaced }) l in
      record { passed = u.passed; spaced = u.spaced }
  ticked-IsRegular now t frame p (false, status, x) v l =
      same-IsRegular now t p _ v refl (omega arith) (omega (arith, v.passed))

module _ {Ratio : Type 0} (no_loss : Ratio) (is_positive : Ratio → Bool) (below : ℕ → Ratio → Bool)
    (table : List ℕ) where
  play-IsRegular :
      (now : ℕ) (p : Playing Ratio) (e : Happening Ratio)
      → IsRegular now p
      → now ≤ time_of now e
      → IsRegular (time_of now e) (play no_loss is_positive below table p e)
  unfolding play on_tick
  play-IsRegular now p stop_called v l = record { passed = v.passed; spaced = v.spaced }
  play-IsRegular now p late_stop_called v l = record { passed = v.passed; spaced = v.spaced }
  play-IsRegular now p pause_called v l = record { passed = v.passed; spaced = v.spaced }
  play-IsRegular now p resume_called v l = record { passed = v.passed; spaced = v.spaced }
  play-IsRegular now p aborted v l = record { passed = v.passed; spaced = v.spaced }
  play-IsRegular now p (begun prepared janus clients t) v l =
      if-holds (IsRegular t) (is_idle p.session.position) _ p
        (λ _. begun-IsRegular now t no_loss prepared janus clients p v l)
        (λ _. same-IsRegular now t p p v refl (omega arith) (omega (arith, v.passed)))
  play-IsRegular now p (woken t) v l =
      if-holds (IsRegular t) _ (on_wake t p) p (λ _. woken-IsRegular now t p v l)
        (λ _. same-IsRegular now t p p v refl (omega arith) (omega (arith, v.passed)))
  play-IsRegular now p (fired ready closes frame t) v l =
      if-holds (IsRegular t) (is_ticking p.session.position) _ p
        (λ _.
          ticked-IsRegular is_positive below table now t frame p
            (get_next_frame ready closes p.executor) v l)
        (λ _. same-IsRegular now t p p v refl (omega arith) (omega (arith, v.passed)))

  play_all-IsRegular :
      (now : ℕ) (p : Playing Ratio) (es : List (Happening Ratio))
      → IsRegular now p
      → AreTimed no_loss is_positive below table now p es
      → IsRegular (last_time now es) (play_all no_loss is_positive below table p es)
  unfolding play_all
  play_all-IsRegular now p [] v h = v
  play_all-IsRegular now p (e ∷ es) v (l, d, h) =
      play_all-IsRegular (time_of now e) (play no_loss is_positive below table p e) es
        (play-IsRegular now p e v l) h

  -- The observer is shown the statistics at most once in 100 ms: from a session that has not shown
  -- them and whose clock is not ahead, through all that happens with times that do not go back, any
  -- two updates are more than 100 ms apart, the later one first in the list.
  pub play_all_spaced :
      (now : ℕ) (p : Playing Ratio) (es : List (Happening Ratio))
      → p.updates ≡ []
      → p.last_stats_time ≤ now
      → AreTimed no_loss is_positive below table now p es
      → AreSpaced (play_all no_loss is_positive below table p es).updates
  play_all_spaced now p es z l h =
      Spaced-AreSpaced _ _
        (play_all-IsRegular now p es
          (record {
            passed = l;
            spaced = subst (Spaced (p.last_stats_time + stats_update_interval + 1)) (sym z) tt;
          })
          h).spaced
