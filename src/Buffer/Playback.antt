-- ===== src/Buffer/Playback.antt =====
-- src/infra/io/AsyncBufferController.cpp: the frames that are played where each refill is done before
-- the next frame is asked for.
use hermes_flow_server.Common.{
  ℕ, zero, suc, ◌+◌, ◌-◌, ◌*◌, ◌/◌, ◌%◌, ◌<◌, ◌≤◌, ◌≡◌, refl, ap, ◌∙◌, Bool, true, false, List,
  length, take, arith, ltb, Bool-cases, inl, inr, if◌then◌else◌, ◌==◌, ltb-false, ltb→lt,
  le_of_ltb-false, subst, lt→ltb, length-append, length-take,
}
use hermes_flow_server.Buffer.{
  AsyncBufferController, DoubleBuffer, get_block, set_block, swap, get_frame, start_refill,
  finish_refill, get_read_span, padded, initialize_buffers, buffer_size, copy_frame,
  swap_and_trigger_refill, zeros, length-zeros,
}

-- A controller as it is made, whose frames were not asked for yet.
pub record IsFresh (c : AsyncBufferController) : Type 0 where
  pub size0 : length c.bf.block0 ≡ buffer_size
  pub size1 : length c.bf.block1 ≡ buffer_size
  pub reads : c.bf.read_index ≡ 0
  pub none_played : c.in_buffer_processed_frames ≡ 0
  pub none_spawned : c.spawned ≡ 0

-- `fetched k` are the bytes that the k-th fetch reads, of the block's size or fewer.
module _ (fetched : ℕ → List ℕ) where
  abbrev pub chunk : ℕ → List ℕ
  chunk k = padded buffer_size (fetched k)

  -- A call of `get_frame`, and the refill that it spawned, whose fetch is the `next`-th.
  unfoldable pub on_time : AsyncBufferController → ℕ → AsyncBufferController × ℕ
  on_time c next =
      if c.spawned == 0
      then (c, next)
      else (finish_refill (start_refill c) (1 - c.bf.read_index) (fetched next), next + 1)

  -- The controller after so many frames, and the number of the next fetch.
  unfoldable pub played : AsyncBufferController → List ℕ → ℕ → AsyncBufferController × ℕ
  played c output zero = (c, 2)
  played c output (suc n) =
      let (c', next) = played c output n in on_time (get_frame c' output 0).2 next

  record Holds (c : AsyncBufferController) (next k i : ℕ) : Type 0 where
    in_range : c.bf.read_index < 2
    is_ready : c.bf.back_buffer_ready ≡ true
    idle : c.spawned ≡ 0
    front : get_block c.bf c.bf.read_index ≡ chunk k
    back : get_block c.bf (1 - c.bf.read_index) ≡ chunk (k + 1)
    position : c.in_buffer_processed_frames ≡ i
    ahead : next ≡ k + 2

  -- The result of `get_frame` and what it leaves in the output buffer.
  abbrev pub heard : AsyncBufferController → List ℕ → Bool × List ℕ
  heard c output = ((get_frame c output 0).0, (get_frame c output 0).1)

  length-chunk : (k : ℕ) → length (chunk k) ≡ 131072
  unfolding padded
  length-chunk k = omega (
    arith,
    length-append (take buffer_size (fetched k)) (zeros (buffer_size - length (fetched k))),
    length-take buffer_size (fetched k),
    length-zeros (buffer_size - length (fetched k)),
  )

  on_time-idle : (c : AsyncBufferController) (next : ℕ) → c.spawned ≡ 0 → on_time c next ≡ (c, next)
  unfolding on_time
  on_time-idle c next h = let e : (c.spawned == 0) ≡ true = ground arith in rw (e) refl

  get_frame-within :
      (c : AsyncBufferController) (output : List ℕ) (next k i : ℕ)
      → i < 409
      → Holds c next k i
      → get_frame c output 0 ≡ (
        true,
        copy_frame (chunk k) (i * 320) output,
        record c { in_buffer_processed_frames = i + 1 },
      )
  unfolding get_frame
  get_frame-within c output next k i l h =
      let size = ap length h.front in
      let fits : ltb (length (get_read_span c.bf)) (c.in_buffer_processed_frames * 320 + 0 + 320)
          ≡ false =
        ltb-false _ _ (omega (arith, length-chunk k, h.position)) in
      let at : c.in_buffer_processed_frames * 320 + 0 ≡ i * 320 = omega (arith, h.position) in
      rw (fits, at, h.front, h.position) refl

  -- Within a block.
  step_within :
      (c : AsyncBufferController) (output : List ℕ) (next k i : ℕ)
      → i < 409
      → Holds c next k i
      → (let (c', next') = on_time (get_frame c output 0).2 next in Holds c' next' k (i + 1))
        × (heard c output ≡ (true, copy_frame (chunk k) (i * 320) output))
  step_within c output next k i l h =
      rw
        (
          get_frame-within c output next k i l h,
          on_time-idle (record c { in_buffer_processed_frames = i + 1 }) next h.idle,
        )
        (
          record {
            in_range = h.in_range;
            is_ready = h.is_ready;
            idle = h.idle;
            front = h.front;
            back = h.back;
            position = refl;
            ahead = h.ahead;
          },
          refl,
        )

  get_block-swap : (b : DoubleBuffer) (i : ℕ) → get_block (swap b) i ≡ get_block b i
  unfolding get_block swap
  get_block-swap b i = refl

  -- The buffer after a refill of the block that is not read from.
  abbrev refilled : DoubleBuffer → ℕ → List ℕ → DoubleBuffer
  refilled b i bytes = record (set_block b i bytes) { back_buffer_ready = true }

  refilled-read_index :
      (b : DoubleBuffer) (i : ℕ) (bytes : List ℕ) → (refilled b i bytes).read_index ≡ b.read_index
  unfolding set_block
  refilled-read_index b i bytes = ground arith

  refilled-front :
      (b : DoubleBuffer) (i j : ℕ) (bytes : List ℕ)
      → i < 2
      → j ≡ 1 - i
      → get_block (refilled b i bytes) j ≡ get_block b j
  unfolding get_block set_block
  refilled-front b i j bytes l e = ground arith

  refilled-back :
      (b : DoubleBuffer) (i : ℕ) (bytes : List ℕ) → get_block (refilled b i bytes) i ≡ bytes
  unfolding get_block set_block
  refilled-back b i bytes = ground arith

  get_frame-swap :
      (c : AsyncBufferController) (output : List ℕ) (next k : ℕ)
      → Holds c next k 409
      → get_frame c output 0 ≡ (
        true,
        copy_frame (chunk (k + 1)) 0 output,
        record c { bf = swap c.bf; in_buffer_processed_frames = 1; spawned = 1 },
      )
  unfolding get_frame swap_and_trigger_refill swap get_block padded
  get_frame-swap c output next k h =
      let size = ap length h.front in
      let full : ltb (length (get_read_span c.bf)) (c.in_buffer_processed_frames * 320 + 0 + 320)
          ≡ true =
        lt→ltb _ _ (omega (arith, length-chunk k, h.position)) in
      let other : get_block (swap c.bf) (1 - c.bf.read_index) ≡ chunk (k + 1) =
        get_block-swap c.bf (1 - c.bf.read_index) ∙ h.back in
      rw (full, h.is_ready, other, h.idle) refl

  on_time-swapped :
      (c : AsyncBufferController) (next k : ℕ)
      → Holds c next k 409
      → let (c', next') =
          on_time (record c { bf = swap c.bf; in_buffer_processed_frames = 1; spawned = 1 }) next in
        Holds c' next' (k + 1) 1
  unfolding on_time start_refill finish_refill swap
  on_time-swapped c next k h =
      let b = swap c.bf in
      let i = 1 - (1 - c.bf.read_index) in
      let new = padded (length (get_block b i)) (fetched next) in
      let same : i ≡ c.bf.read_index = omega (arith, h.in_range) in
      let old : get_block b i ≡ chunk k =
        get_block-swap c.bf i ∙ ap (get_block c.bf) same ∙ h.front in
      let size : length (get_block b i) ≡ buffer_size = ap length old ∙ length-chunk k in
      let index : (refilled b i new).read_index ≡ 1 - c.bf.read_index =
        refilled-read_index b i new in
      record {
        in_range = omega (arith, index);
        is_ready = refl;
        idle = refl;
        front =
            ap (get_block (refilled b i new)) index
            ∙ refilled-front b i (1 - c.bf.read_index) new (omega (arith, h.in_range))
                (omega (arith, h.in_range))
            ∙ get_block-swap c.bf (1 - c.bf.read_index)
            ∙ h.back;
        back =
            ap (λ j. get_block (refilled b i new) (1 - j)) index
            ∙ refilled-back b i new
            ∙ ap (λ n. padded n (fetched next)) size
            ∙ ap chunk (omega (arith, h.ahead));
        position = refl;
        ahead = omega (arith, h.ahead);
      }

  step_swap :
      (c : AsyncBufferController) (output : List ℕ) (next k : ℕ)
      → Holds c next k 409
      → (let (c', next') = on_time (get_frame c output 0).2 next in Holds c' next' (k + 1) 1)
        × (heard c output ≡ (true, copy_frame (chunk (k + 1)) 0 output))
  step_swap c output next k h =
      rw (get_frame-swap c output next k h) (on_time-swapped c next k h, refl)

  -- `n` frames were played: `i` of block `k`, and all of the blocks before it.
  record Reached (c : AsyncBufferController) (next n : ℕ) : Type 0 where
    k : ℕ
    i : ℕ
    holds : Holds c next k i
    within : i ≤ 409
    count : k * 409 + i ≡ n

  Reached-step :
      (c : AsyncBufferController) (output : List ℕ) (next n : ℕ)
      → Reached c next n
      → (let (c', next') = on_time (get_frame c output 0).2 next in Reached c' next' (suc n))
        × (heard c output ≡ (true, copy_frame (chunk (n / 409)) (n % 409 * 320) output))
  Reached-step c output next n r = elim (Bool-cases (ltb r.i 409)) [
    | inl e ↦
        let (holds, frame) = step_within c output next r.k r.i (ltb→lt _ _ e) r.holds in
        let is_k : n / 409 ≡ r.k = omega (arith, r.count, ltb→lt _ _ e) in
        let is_i : n % 409 ≡ r.i = omega (arith, r.count, ltb→lt _ _ e) in
        (
          record {
            k = r.k;
            i = r.i + 1;
            holds = holds;
            within = omega (arith, ltb→lt _ _ e);
            count = omega (arith, r.count);
          },
          rw (is_k, is_i) frame,
        )
    | inr e ↦
        let is_last : r.i ≡ 409 = omega (arith, le_of_ltb-false _ _ e, r.within) in
        let (holds, frame) =
          step_swap c output next r.k (subst (Holds c next r.k) is_last r.holds) in
        let is_k : n / 409 ≡ r.k + 1 = omega (arith, r.count, is_last) in
        let is_i : n % 409 ≡ 0 = omega (arith, r.count, is_last) in
        (
          record {
            k = r.k + 1;
            i = 1;
            holds = holds;
            within = omega arith;
            count = omega (arith, r.count, is_last);
          },
          rw (is_k, is_i) frame,
        )
  ]

  played-Reached :
      (c : AsyncBufferController) (output : List ℕ) (n : ℕ)
      → Reached c 2 0
      → let (c', next) = played c output n in Reached c' next n
  unfolding played
  played-Reached c output zero h = h
  played-Reached c output (suc n) h =
      let (c', next) = played c output n in
      (Reached-step c' output next n (played-Reached c output n h)).0

  initialize_buffers-Reached :
      (c : AsyncBufferController)
      → IsFresh c
      → Reached (initialize_buffers (fetched 0) (fetched 1) c) 2 0
  unfolding initialize_buffers set_block get_block swap
  initialize_buffers-Reached c h =
      rw (h.reads, h.size0, h.size1)
        (record {
          k = 0;
          i = 0;
          holds = record {
            in_range = omega arith;
            is_ready = refl;
            idle = h.none_spawned;
            front = refl;
            back = refl;
            position = h.none_played;
            ahead = refl;
          };
          within = omega arith;
          count = refl;
        })

  -- The n-th frame that is played from a fresh controller, counted from 0, where every refill is
  -- done before the next frame is asked for: it is no underrun, and it is the slice of 320 bytes
  -- at index n % 409 of what fetch number n / 409 read, padded with zeros to a block. Fetches 0
  -- and 1 are those of `initialize_buffers`.
  pub get_frame-played :
      (c : AsyncBufferController) (output : List ℕ) (n : ℕ)
      → IsFresh c
      → (let c' = (played (initialize_buffers (fetched 0) (fetched 1) c) output n).0 in
          heard c' output ≡ (true, copy_frame (chunk (n / 409)) (n % 409 * 320) output))
  get_frame-played c output n h =
      let (c', next) = played (initialize_buffers (fetched 0) (fetched 1) c) output n in
      (Reached-step c' output next n (
        played-Reached (initialize_buffers (fetched 0) (fetched 1) c) output n
          (initialize_buffers-Reached c h))).1
