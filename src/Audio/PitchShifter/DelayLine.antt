-- ===== src/Audio/PitchShifter/DelayLine.antt =====
-- src/infra/audio/PitchShifter.cpp, `process`: the delay buffer as a line of the frames that were
-- written last, over the frames of a call.
use hermes_flow_server.Common.{
  ℕ, ◌+◌, ◌-◌, ◌*◌, ◌/◌, ◌%◌, ◌≤◌, ◌<◌, ◌≡◌, refl, false, Option, arith, zero, suc, List, ◌++◌,
  length, get_elem?, take, drop, Bool-cases, inl, inr, ltb, ap, sym, subst, ◌∙◌, All, length-append,
  length-take, length-drop, All-append, All-take, All-drop, get_elem?-take, get_elem?-drop,
}
use mathlib.Core.Option
use hermes_flow_server.Common.Int.{ℤ, pos}
use hermes_flow_server.Common.Post.{Post, Post-bind}
use hermes_flow_server.Audio.Pcm.{IsInt16}
use hermes_flow_server.Audio.PitchShifter.{
  Float, PitchShifter, process_frame_channels, calculate_crossfade_parameters, advance_pointers,
  advance_phase, process_frame, process_frames, process, remainder, quotient, phase_increment,
  delay_change_rate,
}
use hermes_flow_server.Audio.PitchShifter.Index.{
  back, back_first, back_next, apart, first_index, later_index, quotient_lem, quotient_le,
}
use hermes_flow_server.Audio.PitchShifter.Laws.{IsIeee, Between}
use hermes_flow_server.Audio.PitchShifter.Reads.{
  IsValid, loop_fuel, remainder_lem, delays-Between, advance_phase-Between,
}
use hermes_flow_server.Audio.PitchShifter.Frames.{Ran, Kept-IsValid, process_frame_channels-Ran}

module _ {F : Type 0} (f : Float F) where
  -- Channel `c` of the frame that was written `j` frames before the last one.
  abbrev delayed : PitchShifter F → ℕ → ℕ → Option F
  delayed p j c = get_elem? p.delay_buffer (back p.write_ptr p.buffer_size j * p.channels + c)

  abbrev pub sample : Option ℤ → Option F
  sample = Option.map (λ v. f.of_int v)

  -- What `n` frames of `buffer` make of it and of a state: the sizes, and the line, which takes the
  -- frames as they came in.
  pub record Processed (n : ℕ) (buffer : List ℤ) (p : PitchShifter F) (r : List ℤ × PitchShifter F)
      : Type 0 where
    pub valid : IsValid f r.1
    pub channels : r.1.channels ≡ p.channels
    pub size : r.1.buffer_size ≡ p.buffer_size
    pub len : length r.0 ≡ length buffer
    pub in_int16 : All IsInt16 buffer → All IsInt16 r.0
    pub recent :
        (j c : ℕ)
        → j < n
        → j < p.buffer_size
        → c < p.channels
        → delayed r.1 j c ≡ sample (get_elem? buffer ((n - 1 - j) * p.channels + c))
    pub older :
        (j c : ℕ) → n + j < p.buffer_size → c < p.channels → delayed r.1 (n + j) c ≡ delayed p j c

  module _ (laws : IsIeee f) where
    -- The state after `advance_pointers`, for the one before it.
    record Moved (p q : PitchShifter F) : Type 0 where
      channels : q.channels ≡ p.channels
      max_delay : q.max_delay_samples ≡ p.max_delay_samples
      size : q.buffer_size ≡ p.buffer_size
      buffer : q.delay_buffer ≡ p.delay_buffer
      write : q.write_ptr ≡ (p.write_ptr + 1) % p.buffer_size
      in_ring : q.write_ptr < p.buffer_size
      phased : Between f (pos 0) (pos 1) q.phase

    advance_pointers-Moved :
        (rate increment : F) (p : PitchShifter F)
        → Between f (pos 0) (pos 1) increment
        → IsValid f p
        → Post (Moved p) (advance_pointers f loop_fuel rate increment p)
    unfolding advance_pointers
    advance_pointers-Moved rate increment p i v =
        Post-bind (λ r. (r ≡ (p.write_ptr + 1) % p.buffer_size) × (r < p.buffer_size)) (Moved p)
          (remainder (p.write_ptr + 1) p.buffer_size) _
          (remainder_lem (p.write_ptr + 1) p.buffer_size (omega (arith, v.write)))
          (λ w h.
            Post-bind (Between f (pos 0) (pos 1)) (Moved p)
              (advance_phase f loop_fuel rate increment p.phase) _
              (advance_phase-Between f laws rate increment p.phase i v.phased)
              (λ phase b. record {
                channels = refl;
                max_delay = refl;
                size = refl;
                buffer = refl;
                write = h.0;
                in_ring = h.1;
                phased = b;
              }))

    Moved-IsValid : (p q : PitchShifter F) → Moved p q → IsValid f p → IsValid f q
    Moved-IsValid p q m v = record {
      some_delay = omega (arith, v.some_delay, m.max_delay);
      size = omega (arith, v.size, m.size, m.max_delay);
      countable = omega (arith, v.countable, m.size);
      cells =
          ap length m.buffer
          ∙ v.cells
          ∙ ap (λ n. n * p.channels) (sym m.size)
          ∙ ap (λ n. q.buffer_size * n) (sym m.channels);
      write = omega (arith, m.in_ring, m.size);
      phased = m.phased;
    }

    -- A frame shifts the line by one.
    shifted :
        (frame : List ℤ) (p q : PitchShifter F) (s : List ℤ × PitchShifter F)
        → IsValid f p
        → Ran f 0 p.channels (frame, p) s
        → Moved s.1 q
        → Processed 1 frame p (s.0, q)
    shifted frame p q s v a m =
        let same_size = m.size ∙ a.kept.size in
        let same_channels = m.channels ∙ a.kept.channels in
        let w : q.write_ptr ≡ (p.write_ptr + 1) % p.buffer_size =
          m.write
          ∙ ap (λ k. (k + 1) % s.1.buffer_size) a.kept.write
          ∙ ap (λ k. (p.write_ptr + 1) % k) a.kept.size in
        let cell : (k c : ℕ)
            → get_elem? q.delay_buffer (k * q.channels + c)
              ≡ get_elem? s.1.delay_buffer (k * p.channels + c) =
          λ k c.
            ap (λ n. get_elem? q.delay_buffer (k * n + c)) same_channels
            ∙ ap (λ b. get_elem? b (k * p.channels + c)) m.buffer in
        let n = p.buffer_size in
        let place : (j : ℕ) → back q.write_ptr q.buffer_size j ≡ back q.write_ptr n j =
          λ j. ap (λ k. back q.write_ptr k j) same_size in
        record {
          valid = Moved-IsValid s.1 q m (Kept-IsValid f p s.1 a.kept v);
          channels = same_channels;
          size = same_size;
          len = a.len;
          in_int16 = a.in_int16;
          recent = λ j c l l' u.
              let e : j ≡ 0 = omega (arith, l) in
              subst (λ j. delayed q j c ≡ sample (get_elem? frame ((1 - 1 - j) * p.channels + c)))
                (sym e)
                (cell (back q.write_ptr q.buffer_size 0) c
                  ∙ ap (λ k. get_elem? s.1.delay_buffer (k * p.channels + c))
                      (place 0 ∙ back_first p.write_ptr n q.write_ptr v.write w)
                  ∙ a.written c (omega arith) (omega (arith, u))
                  ∙ ap (λ k. sample (get_elem? frame k)) (first_index p.channels c));
          older = λ j c l u.
              let (e, ne) = back_next p.write_ptr n q.write_ptr j v.write (omega (arith, l)) w in
              cell (back q.write_ptr q.buffer_size (1 + j)) c
              ∙ ap (λ k. get_elem? s.1.delay_buffer (k * p.channels + c))
                  (place (1 + j) ∙ ap (back q.write_ptr n) (omega arith) ∙ e)
              ∙ a.others (back p.write_ptr n j * p.channels + c)
                  (apart p.write_ptr (back p.write_ptr n j) p.channels c ne u);
        }

    process_frame-Processed :
        (rate increment : F) (frame : List ℤ) (p : PitchShifter F)
        → IsValid f p
        → Between f (pos 0) (pos 1) increment
        → length frame ≡ p.channels
        → Post (Processed 1 frame p) (process_frame f loop_fuel rate increment frame p)
    unfolding process_frame
    process_frame-Processed rate increment frame p v i len =
        let params = calculate_crossfade_parameters f p in
        let (d1, d2) = delays-Between f laws p v in
        Post-bind (Ran f 0 p.channels (frame, p)) (Processed 1 frame p)
          (process_frame_channels f loop_fuel params p.channels 0 (frame, p)) _
          (process_frame_channels-Ran f laws params p.channels 0 (frame, p) v
            (record { first = d1; second = d2 }) (omega arith) len)
          (λ s a.
            Post-bind (Moved s.1) (Processed 1 frame p)
              (advance_pointers f loop_fuel rate increment s.1) _
              (advance_pointers-Moved rate increment s.1 i (Kept-IsValid f p s.1 a.kept v))
              (λ q m. shifted frame p q s v a m))

    -- The first frame of a buffer, and the others.
    joined :
        (n : ℕ) (buffer : List ℤ) (p : PitchShifter F) (h r : List ℤ × PitchShifter F)
        → suc n * p.channels ≤ length buffer
        → Processed 1 (take p.channels buffer) p h
        → Processed n (drop p.channels buffer) h.1 r
        → Processed (suc n) buffer p (h.0 ++ r.0, r.1)
    joined n buffer p h r l a b = record {
      valid = b.valid;
      channels = b.channels ∙ a.channels;
      size = b.size ∙ a.size;
      len = omega (
        arith,
        length-append h.0 r.0,
        a.len,
        b.len,
        length-take p.channels buffer,
        length-drop p.channels buffer,
      );
      in_int16 = λ x.
          All-append IsInt16 h.0 r.0 (a.in_int16 (All-take IsInt16 p.channels buffer x))
            (b.in_int16 (All-drop IsInt16 p.channels buffer x));
      recent = λ j c l1 l2 u. elim (Bool-cases (ltb j n)) [
        | inl e ↦
            b.recent j c (ground arith) (omega (arith, a.size)) (omega (arith, a.channels))
            ∙ ap sample (
                get_elem?-drop p.channels buffer ((n - 1 - j) * h.1.channels + c)
                ∙ ap (get_elem? buffer)
                    (later_index n j c p.channels h.1.channels (ground arith) a.channels))
        | inr e ↦
            let last : j ≡ n = ground arith in
            ap (λ j. delayed r.1 j c) {x = j} {y = n + 0} (omega arith)
            ∙ b.older 0 c (omega (arith, a.size)) (omega (arith, a.channels))
            ∙ a.recent 0 c (omega arith) (omega arith) u
            ∙ ap sample (
                get_elem?-take p.channels buffer ((1 - 1 - 0) * p.channels + c) (omega arith)
                ∙ ap (get_elem? buffer) (
                    ap (λ k. k * p.channels + c) {x = 1 - 1 - 0} {y = suc n - 1 - j} (omega arith)))
      ];
      older = λ j c l1 u.
          ap (λ j. delayed r.1 j c) {x = suc n + j} {y = n + (1 + j)} (omega arith)
          ∙ b.older (1 + j) c (omega (arith, a.size)) (omega (arith, a.channels))
          ∙ a.older j c (omega arith) u;
    }

    pub process_frames-Processed :
        (rate increment : F) (n : ℕ) (buffer : List ℤ) (p : PitchShifter F)
        → IsValid f p
        → Between f (pos 0) (pos 1) increment
        → n * p.channels ≤ length buffer
        → Post (Processed n buffer p) (process_frames f loop_fuel rate increment n buffer p)
    unfolding process_frames
    process_frames-Processed rate increment zero buffer p v i l = record {
      valid = v;
      channels = refl;
      size = refl;
      len = refl;
      in_int16 = λ h. h;
      recent = λ j c l u. absurd (omega arith);
      older = λ j c l u. ap (λ j. delayed p j c) {x = 0 + j} {y = j} (omega arith);
    }
    process_frames-Processed rate increment (suc n) buffer p v i l =
        let fits : p.channels + n * p.channels ≤ length buffer = grind arith in
        Post-bind (Processed 1 (take p.channels buffer) p) (Processed (suc n) buffer p)
          (process_frame f loop_fuel rate increment (take p.channels buffer) p) _
          (process_frame-Processed rate increment (take p.channels buffer) p v i
            (omega (arith, fits, length-take p.channels buffer)))
          (λ h a.
            Post-bind (Processed n (drop p.channels buffer) h.1) (Processed (suc n) buffer p)
              (process_frames f loop_fuel rate increment n (drop p.channels buffer) h.1) _
              (process_frames-Processed rate increment n (drop p.channels buffer) h.1 a.valid i
                (rw (a.channels) (omega (arith, fits, length-drop p.channels buffer))))
              (λ r b. joined n buffer p h r l a b))

    -- Over numbers that obey the laws of `float`, whatever the buffer and the semitones, if these are
    -- not 0 and ask for a phase increment from 0 to 1: from a valid state with a channel at least, three
    -- turns are enough for each loop, no access is out of bounds and nothing is divided by 0. The state
    -- stays valid, the buffer keeps its length and, where its samples are those of an `int16_t`, so do
    -- the new ones; and in the delay line the frames that came in stand before the older ones, the
    -- last first, as far as the line is long.
    pub process_lem :
        (buffer : List ℤ) (semitones : F) (p : PitchShifter F)
        → IsValid f p
        → 0 < p.channels
        → f.eq semitones (f.of_int (pos 0)) ≡ false
        → Between f (pos 0) (pos 1) (phase_increment f p semitones)
        → Post
            (Processed (length buffer / p.channels) buffer p)
            (process f loop_fuel p buffer semitones)
    unfolding process
    process_lem buffer semitones p v some_channels nonzero i =
        let rate = delay_change_rate f semitones in
        let increment = phase_increment f p semitones in
        rw (nonzero) (
          Post-bind (λ n. n ≡ length buffer / p.channels) _ (quotient (length buffer) p.channels) _
            (quotient_lem (length buffer) p.channels some_channels)
            (λ n e.
              subst
                (λ n.
                  Post (Processed (length buffer / p.channels) buffer p)
                    (process_frames f loop_fuel rate increment n buffer p))
                (sym e)
                (process_frames-Processed rate increment (length buffer / p.channels) buffer p v i
                  (quotient_le (length buffer) p.channels))))
