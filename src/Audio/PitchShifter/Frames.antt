-- ===== src/Audio/PitchShifter/Frames.antt =====
-- src/infra/audio/PitchShifter.cpp, `process_frame_channels`: what one frame leaves in the delay buffer
-- and in the span.
use hermes_flow_server.Common.{
  ℕ, ◌+◌, ◌*◌, ◌≤◌, ◌<◌, ◌≡◌, refl, some, arith, zero, suc, List, [], ◌∷◌, length, get_elem?, set,
  Bool-cases, inl, inr, ◌⊎◌, ltb, ap, sym, subst, ◌∙◌, All, length-set, get_elem?-set_self,
  get_elem?-set_ne, lt→ltb, All-set,
}
use mathlib.Core.Option
use hermes_flow_server.Common.Int.{ℤ, pos}
use hermes_flow_server.Common.Post.{Post, Post-bind, Post-weaken}
use hermes_flow_server.Audio.Pcm.{IsInt16}
use hermes_flow_server.Audio.PitchShifter.{
  Float, PitchShifter, CrossfadeParams, clamp, write_at, mixed, process_channel,
  process_frame_channels, read_interpolated,
}
use hermes_flow_server.Audio.PitchShifter.Laws.{IsIeee, Between}
use hermes_flow_server.Audio.PitchShifter.Reads.{
  IsValid, loop_fuel, in_range, read_interpolated-IsDefined,
}

clamp-IsInt16 : (v : ℤ) → IsInt16 (clamp v)
clamp-IsInt16 v = ground arith

get_elem?-lem :
    {A : Type 0} (xs : List A) (i : ℕ)
    → i < length xs
    → Post (λ a. get_elem? xs i ≡ some a) (get_elem? xs i)
get_elem?-lem [] i h = absurd (omega arith)
get_elem?-lem (x ∷ xs) zero h = refl
get_elem?-lem (x ∷ xs) (suc i) h = get_elem?-lem xs i (omega arith)

write_at-lem :
    {A : Type 0} (xs : List A) (i : ℕ) (v : A) → i < length xs → write_at xs i v ≡ some (set xs i v)
write_at-lem xs i v h = rw (lt→ltb i (length xs) h) refl

module _ {F : Type 0} (f : Float F) where
  -- All but the samples in the delay buffer is the same.
  pub record Kept (p q : PitchShifter F) : Type 0 where
    pub channels : q.channels ≡ p.channels
    pub max_delay : q.max_delay_samples ≡ p.max_delay_samples
    pub size : q.buffer_size ≡ p.buffer_size
    pub write : q.write_ptr ≡ p.write_ptr
    pub phase : q.phase ≡ p.phase
    pub cells : length q.delay_buffer ≡ length p.delay_buffer

  Kept-trans : (p q r : PitchShifter F) → Kept p q → Kept q r → Kept p r
  Kept-trans p q r a b = record {
    channels = b.channels ∙ a.channels;
    max_delay = b.max_delay ∙ a.max_delay;
    size = b.size ∙ a.size;
    write = b.write ∙ a.write;
    phase = b.phase ∙ a.phase;
    cells = b.cells ∙ a.cells;
  }

  pub Kept-IsValid : (p q : PitchShifter F) → Kept p q → IsValid f p → IsValid f q
  Kept-IsValid p q k v = record {
    some_delay = omega (arith, v.some_delay, k.max_delay);
    size = omega (arith, v.size, k.size, k.max_delay);
    countable = omega (arith, v.countable, k.size);
    cells =
        k.cells
        ∙ v.cells
        ∙ ap (λ n. n * p.channels) (sym k.size)
        ∙ ap (λ n. q.buffer_size * n) (sym k.channels);
    write = omega (arith, v.write, k.write, k.size);
    phased = subst (Between f (pos 0) (pos 1)) (sym k.phase) v.phased;
  }

  -- The first cell of the frame that is written.
  abbrev pub base : PitchShifter F → ℕ
  base p = p.write_ptr * p.channels

  -- What the loop from channel `c` on, with `left` channels to go, makes of a frame and a state.
  pub record Ran (c left : ℕ) (s r : List ℤ × PitchShifter F) : Type 0 where
    pub kept : Kept s.1 r.1
    pub len : length r.0 ≡ length s.0
    pub in_int16 : All IsInt16 s.0 → All IsInt16 r.0
    pub rest : (k : ℕ) → (k < c) ⊎ (c + left ≤ k) → get_elem? r.0 k ≡ get_elem? s.0 k
    pub written :
        (k : ℕ)
        → c ≤ k
        → k < c + left
        → get_elem? r.1.delay_buffer (base s.1 + k) ≡ Option.map (λ v. f.of_int v) (get_elem? s.0 k)
    pub others :
        (i : ℕ)
        → (i < base s.1 + c) ⊎ (base s.1 + (c + left) ≤ i)
        → get_elem? r.1.delay_buffer i ≡ get_elem? s.1.delay_buffer i

  -- The delays of the heads are within the delay buffer.
  pub record AreDelays (p : PitchShifter F) (params : CrossfadeParams F) : Type 0 where
    pub first : Between f (pos 0) (pos p.max_delay_samples) params.delay1
    pub second : Between f (pos 0) (pos p.max_delay_samples) params.delay2

  module _ (laws : IsIeee f) where
    process_channel-Ran :
        (params : CrossfadeParams F) (c : ℕ) (frame : List ℤ) (p : PitchShifter F)
        → IsValid f p
        → AreDelays p params
        → c < p.channels
        → length frame ≡ p.channels
        → Post (Ran c 1 (frame, p)) (process_channel f loop_fuel params c (frame, p))
    unfolding process_channel
    process_channel-Ran params c frame p v d lt len =
        let i = base p + c in
        let inside : i < length p.delay_buffer =
          subst (λ n. i < n) (sym v.cells)
            (in_range p.write_ptr c p.channels p.buffer_size v.write lt) in
        Post-bind (λ a. get_elem? frame c ≡ some a) _ (get_elem? frame c) _
          (get_elem?-lem frame c (omega arith))
          (λ sample e.
            let q : PitchShifter F = record p {
              delay_buffer = set p.delay_buffer i (f.of_int sample);
            } in
            let k : Kept p q = record {
              channels = refl;
              max_delay = refl;
              size = refl;
              write = refl;
              phase = refl;
              cells = length-set p.delay_buffer i (f.of_int sample);
            } in
            let w = Kept-IsValid p q k v in
            rw (write_at-lem p.delay_buffer i (f.of_int sample) inside) (
              Post-bind (λ a. Unit) _ (read_interpolated f loop_fuel q params.delay1 c) _
                (read_interpolated-IsDefined f laws q c params.delay1 w lt d.first)
                (λ out1 _.
                  Post-bind (λ a. Unit) _ (read_interpolated f loop_fuel q params.delay2 c) _
                    (read_interpolated-IsDefined f laws q c params.delay2 w lt d.second)
                    (λ out2 _.
                      let out = clamp (f.to_int (mixed f params out1 out2)) in
                      record {
                        kept = k;
                        len = length-set frame c out;
                        in_int16 = λ h.
                            All-set IsInt16 frame c out h
                              (clamp-IsInt16 (f.to_int (mixed f params out1 out2)));
                        rest = λ j o. get_elem?-set_ne frame c j out (λ e. omega (arith, o));
                        written = λ j l u.
                            subst
                              (λ j.
                                get_elem? q.delay_buffer (base p + j)
                                ≡ Option.map (λ v. f.of_int v) (get_elem? frame j))
                              (omega arith)
                              (get_elem?-set_self p.delay_buffer i (f.of_int sample) inside
                                ∙ sym (ap (Option.map (λ v. f.of_int v)) e));
                        others = λ j o.
                            get_elem?-set_ne p.delay_buffer i j (f.of_int sample)
                              (λ e. omega (arith, o));
                      }))))

    Ran-none : (c : ℕ) (s : List ℤ × PitchShifter F) → Ran c 0 s s
    Ran-none c s = record {
      kept = record {
        channels = refl;
        max_delay = refl;
        size = refl;
        write = refl;
        phase = refl;
        cells = refl;
      };
      len = refl;
      in_int16 = λ h. h;
      rest = λ k o. refl;
      written = λ k l u. absurd (omega arith);
      others = λ i o. refl;
    }

    -- A channel, and the channels after it.
    Ran-later :
        (c left : ℕ) (s r t : List ℤ × PitchShifter F)
        → Ran c 1 s r
        → Ran (c + 1) left r t
        → Ran c (suc left) s t
    Ran-later c left s r t a b =
        let same_base : base r.1 ≡ base s.1 =
          ap (λ n. n * r.1.channels) a.kept.write ∙ ap (λ n. s.1.write_ptr * n) a.kept.channels in
        record {
          kept = Kept-trans s.1 r.1 t.1 a.kept b.kept;
          len = b.len ∙ a.len;
          in_int16 = λ h. b.in_int16 (a.in_int16 h);
          rest = λ k o. b.rest k (ground (arith, o)) ∙ a.rest k (ground (arith, o));
          written = λ k l u. elim (Bool-cases (ltb c k)) [
            | inl e ↦
                ap (λ n. get_elem? t.1.delay_buffer (n + k)) (sym same_base)
                ∙ b.written k (ground arith) (omega (arith, u))
                ∙ ap (Option.map (λ v. f.of_int v)) (a.rest k (inr (ground arith)))
            | inr e ↦
                b.others (base s.1 + k) (inl (ground (arith, same_base)))
                ∙ a.written k l (ground arith)
          ];
          others =
              λ i o. b.others i (ground (arith, o, same_base)) ∙ a.others i (ground (arith, o));
        }

    AreDelays-Kept :
        (p q : PitchShifter F) (params : CrossfadeParams F)
        → Kept p q
        → AreDelays p params
        → AreDelays q params
    AreDelays-Kept p q params k d = record {
      first = subst (λ n. Between f (pos 0) (pos n) params.delay1) (sym k.max_delay) d.first;
      second = subst (λ n. Between f (pos 0) (pos n) params.delay2) (sym k.max_delay) d.second;
    }

    pub process_frame_channels-Ran :
        (params : CrossfadeParams F) (left c : ℕ) (s : List ℤ × PitchShifter F)
        → IsValid f s.1
        → AreDelays s.1 params
        → c + left ≡ s.1.channels
        → length s.0 ≡ s.1.channels
        → Post (Ran c left s) (process_frame_channels f loop_fuel params left c s)
    unfolding process_frame_channels
    process_frame_channels-Ran params zero c s v d e len = Ran-none c s
    process_frame_channels-Ran params (suc left) c s v d e len =
        Post-bind (Ran c 1 s) (Ran c (suc left) s) (process_channel f loop_fuel params c s) _
          (process_channel-Ran params c s.0 s.1 v d (omega arith) len)
          (λ r a.
            Post-weaken (Ran (c + 1) left r) (Ran c (suc left) s) _
              (process_frame_channels-Ran params left (c + 1) r (Kept-IsValid s.1 r.1 a.kept v)
                (AreDelays-Kept s.1 r.1 params a.kept d) (omega (arith, a.kept.channels))
                (a.len ∙ len ∙ sym a.kept.channels))
              (λ t b. Ran-later c left s r t a b))
