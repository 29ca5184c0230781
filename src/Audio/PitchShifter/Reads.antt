-- ===== src/Audio/PitchShifter/Reads.antt =====
-- src/infra/audio/PitchShifter.cpp, `read_interpolated`, `calculate_crossfade_parameters` and
-- `advance_pointers`: the heads stay in the delay buffer.
use hermes_flow_server.Common.{
  ℕ, ◌+◌, ◌*◌, ◌%◌, ◌^◌, ◌≤◌, ◌<◌, ◌≡◌, refl, Option, arith, zero, suc, List, [], ◌∷◌, length,
  get_elem?, Bool-cases, inl, inr, sym, subst,
}
use hermes_flow_server.Common.Int.{pos, negsuc, ◌+ℤ◌, ◌-ℤ◌, sub_ℕ}
use hermes_flow_server.Common.Post.{◌>>=◌, Post, Post-bind, Post-if}
use hermes_flow_server.Audio.PitchShifter.{
  Float, PitchShifter, raise, lower, index_of, remainder, bounded, read_at, read_between,
  read_interpolated, calculate_crossfade_parameters, opposite, advance_phase,
}
use hermes_flow_server.Audio.PitchShifter.Laws.{
  IsIeee, Between, add_within, sub_within, exactly, raise-Between, lower-Between,
}

-- The turns of a loop that are enough.
abbrev pub loop_fuel : ℕ
loop_fuel = 3

-- A computation has a result.
abbrev IsDefined : {A : Type 0} → Option A → Type 0
IsDefined = Post (λ a. Unit)

get_elem?-IsDefined :
    {A : Type 0} (xs : List A) (i : ℕ) → i < length xs → IsDefined (get_elem? xs i)
get_elem?-IsDefined [] i h = absurd (omega arith)
get_elem?-IsDefined (x ∷ xs) zero h = tt
get_elem?-IsDefined (x ∷ xs) (suc i) h = get_elem?-IsDefined xs i (omega arith)

pub remainder_lem : (a b : ℕ) → 0 < b → Post (λ r. (r ≡ a % b) × (r < b)) (remainder a b)
remainder_lem a zero h = absurd (omega arith)
remainder_lem a (suc b) h = (refl, omega arith)

pub in_range : (r c w h : ℕ) → r < h → c < w → r * w + c < h * w
in_range r c w h p q = grind arith

bounded_lem : (size idx : ℕ) → 0 < size → bounded size idx < size
bounded_lem size idx h = ground arith

module _ {F : Type 0} (f : Float F) where
  -- The state between two frames. The delay buffer has at most 2 ^ 23 frames, which `float` counts
  -- exactly.
  pub record IsValid (p : PitchShifter F) : Type 0 where
    pub some_delay : 0 < p.max_delay_samples
    pub size : p.buffer_size ≡ p.max_delay_samples * 2
    pub countable : p.buffer_size ≤ 2 ^ 23
    pub cells : length p.delay_buffer ≡ p.buffer_size * p.channels
    pub write : p.write_ptr < p.buffer_size
    pub phased : Between f (pos 0) (pos 1) p.phase

  module _ (laws : IsIeee f) where
    read_between-IsDefined :
        (p : PitchShifter F) (channel : ℕ) (x : F) (idx1 : ℕ)
        → IsValid p
        → channel < p.channels
        → idx1 < p.buffer_size
        → IsDefined (read_between f p channel x idx1)
    unfolding read_between
    read_between-IsDefined p channel x idx1 v c l =
        let cell = λ (i : ℕ). get_elem? p.delay_buffer (i * p.channels + channel) in
        let has_cell : (i : ℕ) → i < p.buffer_size → IsDefined (cell i) = λ i h.
          get_elem?-IsDefined p.delay_buffer (i * p.channels + channel) (
            subst (λ n. i * p.channels + channel < n) (sym v.cells)
              (in_range i channel p.channels p.buffer_size h c)) in
        Post-bind (λ r. (r ≡ (idx1 + 1) % p.buffer_size) × (r < p.buffer_size)) (λ a. Unit)
          (remainder (idx1 + 1) p.buffer_size) _
          (remainder_lem (idx1 + 1) p.buffer_size (omega (arith, v.write)))
          (λ idx2 r.
            Post-bind (λ a. Unit) (λ a. Unit) (cell idx1) _ (has_cell idx1 l)
              (λ val1 _.
                Post-bind (λ a. Unit) (λ a. Unit) (cell idx2) _ (has_cell idx2 r.1) (λ val2 _. tt)))

    read_at-IsDefined :
        (p : PitchShifter F) (channel : ℕ) (x : F)
        → IsValid p
        → channel < p.channels
        → Between f (pos 0) (pos p.buffer_size) x
        → IsDefined (read_at f p channel x)
    unfolding read_at
    read_at-IsDefined p channel x v c b =
        let (i, e, l) = laws.to_int_range p.buffer_size x (omega (arith, v.countable)) b in
        subst
          (λ z.
            IsDefined
              (index_of z >>= λ idx. read_between f p channel x (bounded p.buffer_size idx)))
          (sym e)
          (read_between-IsDefined p channel x (bounded p.buffer_size i) v c
            (bounded_lem p.buffer_size i (omega (arith, v.write))))

    pub read_interpolated-IsDefined :
        (p : PitchShifter F) (channel : ℕ) (delay : F)
        → IsValid p
        → channel < p.channels
        → Between f (pos 0) (pos p.max_delay_samples) delay
        → IsDefined (read_interpolated f loop_fuel p delay channel)
    unfolding read_interpolated ◌-ℤ◌
    read_interpolated-IsDefined p channel delay v c b =
        let size = f.of_int (pos p.buffer_size) in
        let x = f.sub (f.of_int (pos p.write_ptr)) delay in
        let b' =
          sub_within f laws (pos p.write_ptr) (pos p.write_ptr) (pos 0) (pos p.max_delay_samples)
            (sub_ℕ 0 p.max_delay_samples) (pos p.buffer_size) (f.of_int (pos p.write_ptr)) delay
            (exactly f laws (pos p.write_ptr)) b (ground (arith, v.write, v.countable, v.size))
            (ground (arith, v.write, v.countable, v.size)) (ground (arith, v.write, v.countable))
            (ground (arith, v.write)) (ground (arith, v.write)) in
        Post-bind (Between f (pos 0) (pos p.buffer_size)) (λ a. Unit) (raise f loop_fuel size x) _
          (raise-Between f laws p.max_delay_samples p.buffer_size 1 x (omega (arith, v.size))
            (omega (arith, v.countable)) b')
          (λ raised r.
            Post-bind (Between f (pos 0) (pos p.buffer_size)) (λ a. Unit)
              (lower f loop_fuel size raised) _
              (lower-Between f laws p.buffer_size p.buffer_size 0 raised (omega (arith, v.write))
                (omega arith) v.countable r)
              (λ y q. read_at-IsDefined p channel y v c q))

    opposite-Between :
        (x : F) → Between f (pos 0) (pos 1) x → Between f (pos 0) (pos 1) (opposite f x)
    unfolding ◌+ℤ◌ ◌-ℤ◌
    opposite-Between x b =
        let y = f.add x f.half in
        let b' =
          add_within f laws (pos 0) (pos 1) (pos 0) (pos 1) (pos 0) (pos 2) x f.half b
            laws.half_range (ground arith) (omega arith) (omega arith) (omega arith)
            (omega arith) in
        elim (Bool-cases (f.le (f.of_int (pos 1)) y)) [
          | inl e ↦ rw (e) (
              sub_within f laws (pos 1) (pos 2) (pos 1) (pos 1) (pos 0) (pos 1) y (f.of_int (pos 1))
                (e, b'.1) (exactly f laws (pos 1)) (ground arith) (omega arith) (omega arith)
                (omega arith) (omega arith))
          | inr e ↦ rw (e) (b'.0, laws.le_of_not_le (pos 0) (pos 2) (pos 1) y b' e)
        ]

    -- The two heads are behind the write pointer by no more than the maximal delay.
    pub delays-Between :
        (p : PitchShifter F)
        → IsValid p
        → let params = calculate_crossfade_parameters f p in
          Between f (pos 0) (pos p.max_delay_samples) params.delay1
          × Between f (pos 0) (pos p.max_delay_samples) params.delay2
    unfolding calculate_crossfade_parameters
    delays-Between p v =
        let n = p.max_delay_samples in
        let small : n ≤ 2 ^ 24 = omega (arith, v.size, v.countable) in
        (
          laws.mul_range n p.phase small v.phased,
          laws.mul_range n (opposite f p.phase) small (opposite-Between p.phase v.phased),
        )

    pub advance_phase-Between :
        (rate increment phase : F)
        → Between f (pos 0) (pos 1) increment
        → Between f (pos 0) (pos 1) phase
        → Post (Between f (pos 0) (pos 1)) (advance_phase f loop_fuel rate increment phase)
    unfolding advance_phase ◌+ℤ◌ ◌-ℤ◌
    advance_phase-Between rate increment phase i b =
        Post-if (Between f (pos 0) (pos 1)) (f.lt rate (f.of_int (pos 0))) _ _
          (λ _. raise-Between f laws 1 1 1 (f.sub phase increment) (omega arith) (omega arith) (
            sub_within f laws (pos 0) (pos 1) (pos 0) (pos 1) (negsuc 0) (pos 1) phase increment b i
              (ground arith) (omega arith) (omega arith) (omega arith) (omega arith)))
          (λ _.
            lower-Between f laws 1 2 0 (f.add phase increment) (omega arith) (omega arith)
              (omega arith)
              (add_within f laws (pos 0) (pos 1) (pos 0) (pos 1) (pos 0) (pos 2) phase increment b i
                (ground arith) (omega arith) (omega arith) (omega arith) (omega arith)))
