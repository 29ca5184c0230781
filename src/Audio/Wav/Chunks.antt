-- ===== src/Audio/Wav/Chunks.antt =====
-- src/infra/audio/WavUtils.hpp: files of chunks.
use hermes_flow_server.Common.{
  ℕ, zero, suc, ◌+◌, ◌%◌, ◌^◌, ◌<◌, ◌≤◌, ◌≡◌, refl, sym, ap, ◌∙◌, true, false, ◌||◌, some, List, [],
  ◌∷◌, ◌++◌, length, take, ltb, if◌then◌else◌, arith, length-append, drop-append, take-append,
  append_assoc, append-nil, All,
}
use hermes_flow_server.Audio.Wav.{
  offset, riff_tag, data_tag, same_bytes, bytes_at, le_value, at_chunk, find_data, from_riff,
  get_audio_data_offset,
}
use hermes_flow_server.Audio.Wav.Offset.{bytes_inside}

-- A chunk: the four bytes of its identifier, the four of its size, and its body.
pub record Chunk : Type 0 where
  pub tag : List ℕ
  pub size : List ℕ
  pub body : List ℕ

abbrev pub chunk_bytes : Chunk → List ℕ
chunk_bytes c = c.tag ++ (c.size ++ c.body)

-- A chunk of its size that is not "data". There is no padding after a body of odd size.
pub record IsOther (c : Chunk) : Type 0 where
  pub tag_length : 4 ≡ length c.tag
  pub size_length : 4 ≡ length c.size
  pub body_length : length c.body ≡ le_value c.size
  pub other : same_bytes c.tag data_tag ≡ false

abbrev pub chunks_bytes : List Chunk → List ℕ
chunks_bytes [] = []
chunks_bytes (c ∷ cs) = chunk_bytes c ++ chunks_bytes cs

bytes_at-past :
    (n : ℕ) (before bs after : List ℕ)
    → n ≡ length bs
    → bytes_at (before ++ (bs ++ after)) (length before) n ≡ some bs
bytes_at-past n before bs after e =
    bytes_inside (before ++ (bs ++ after)) (length before) n
      (omega (arith, length-append before (bs ++ after), length-append bs after))
    ∙ ap (λ l. some (take n l)) (drop-append (length before) before (bs ++ after) refl)
    ∙ ap some (take-append n bs after e)

-- Four bytes further on.
bytes_at-second :
    (n : ℕ) (before tag bs after : List ℕ)
    → 4 ≡ length tag
    → n ≡ length bs
    → bytes_at (before ++ (tag ++ (bs ++ after))) (length before + 4) n ≡ some bs
bytes_at-second n before tag bs after t e =
    ap (λ l. bytes_at l (length before + 4) n) (sym (append_assoc before tag (bs ++ after)))
    ∙ ap (λ p. bytes_at ((before ++ tag) ++ (bs ++ after)) p n)
        (omega (arith, length-append before tag))
    ∙ bytes_at-past n (before ++ tag) bs after e

-- One turn of the loop at a tag and a size that are in the buffer.
chunk_turn :
    (fuel : ℕ) (before tag size after : List ℕ)
    → 4 ≡ length tag
    → 4 ≡ length size
    → 0 < length after
    → find_data (suc fuel) (before ++ (tag ++ (size ++ after))) (length before)
      ≡ at_chunk
          (before ++ (tag ++ (size ++ after)))
          (length before)
          (some tag)
          (some size)
          (find_data fuel (before ++ (tag ++ (size ++ after))))
unfolding find_data
chunk_turn fuel before tag size after t s l =
    let buffer = before ++ (tag ++ (size ++ after)) in
    let goes : ltb (length before + 8) (length buffer) ≡ true = ground (
      arith,
      length-append before (tag ++ (size ++ after)),
      length-append tag (size ++ after),
      length-append size after,
    ) in
    rw (goes) (
      ap
        (λ o.
          at_chunk buffer (length before) o (bytes_at buffer (length before + 4) 4)
            (find_data fuel buffer))
        (bytes_at-past 4 before tag (size ++ after) t)
      ∙ ap (λ o. at_chunk buffer (length before) (some tag) o (find_data fuel buffer))
          (bytes_at-second 4 before tag size after t s))

-- A chunk that is not "data" is skipped.
other_turn :
    (fuel : ℕ) (c : Chunk) (before after : List ℕ)
    → IsOther c
    → 0 < length after
    → length (before ++ (chunk_bytes c ++ after)) < 2 ^ 63
    → find_data (suc fuel) (before ++ (chunk_bytes c ++ after)) (length before)
      ≡ find_data fuel ((before ++ chunk_bytes c) ++ after) (length (before ++ chunk_bytes c))
other_turn fuel c before after h l short =
    let buffer = before ++ (c.tag ++ (c.size ++ (c.body ++ after))) in
    let shape : before ++ (chunk_bytes c ++ after) ≡ buffer =
      ap (λ x. before ++ x)
        (append_assoc c.tag (c.size ++ c.body) after
          ∙ ap (λ x. c.tag ++ x) (append_assoc c.size c.body after)) in
    let before_length = length-append before (c.tag ++ (c.size ++ c.body)) in
    let tag_length = length-append c.tag (c.size ++ c.body) in
    let size_length = length-append c.size c.body in
    let whole = length-append before (chunk_bytes c ++ after) in
    let part = length-append (chunk_bytes c) after in
    let next : (length before + 8 + le_value c.size) % 2 ^ 64 ≡ length (before ++ chunk_bytes c) =
      omega (
        arith, h.tag_length, h.size_length, h.body_length, before_length, tag_length, size_length,
        whole, part,
      ) in
    let inside : ltb (length buffer) (length (before ++ chunk_bytes c))
          || ltb (length (before ++ chunk_bytes c)) (length before)
        ≡ false =
      ground (arith, ap length shape, before_length, whole, part) in
    ap (λ b. find_data (suc fuel) b (length before)) shape
    ∙ chunk_turn fuel before c.tag c.size (c.body ++ after) h.tag_length h.size_length
        (omega (arith, length-append c.body after))
    ∙ ap
        (λ b.
          if b
          then offset (length before + 8)
          else (let n = (length before + 8 + le_value c.size) % 2 ^ 64 in
              if ltb (length buffer) n || ltb n (length before)
              then offset 44
              else find_data fuel buffer n))
        h.other
    ∙ ap
        (λ n.
          if ltb (length buffer) n || ltb n (length before)
          then offset 44
          else find_data fuel buffer n)
        next
    ∙ ap (λ b. if b then offset 44 else find_data fuel buffer (length (before ++ chunk_bytes c)))
        inside
    ∙ ap (λ b. find_data fuel b (length (before ++ chunk_bytes c)))
        (sym shape ∙ sym (append_assoc before (chunk_bytes c) after))

find_data_lem :
    (cs : List Chunk) (fuel : ℕ) (before size samples : List ℕ)
    → All IsOther cs
    → 4 ≡ length size
    → 0 < length samples
    → length (before ++ (chunks_bytes cs ++ (data_tag ++ (size ++ samples)))) < 2 ^ 63
    → length cs < fuel
    → find_data fuel
        (before ++ (chunks_bytes cs ++ (data_tag ++ (size ++ samples))))
        (length before)
      ≡ offset (length (before ++ chunks_bytes cs) + 8)
find_data_lem cs zero before size samples h s l short f = absurd (omega arith)
find_data_lem [] (suc fuel) before size samples h s l short f =
    chunk_turn fuel before data_tag size samples refl s l
    ∙ ap (λ x. offset (length x + 8)) (sym (append-nil before))
find_data_lem (c ∷ cs) (suc fuel) before size samples h s l short f =
    let after = chunks_bytes cs ++ (data_tag ++ (size ++ samples)) in
    let shape = append_assoc (chunk_bytes c) (chunks_bytes cs) (data_tag ++ (size ++ samples)) in
    let grown = append_assoc before (chunk_bytes c) after in
    let whole = ap (λ x. length (before ++ x)) shape in
    ap (λ x. find_data (suc fuel) (before ++ x) (length before)) shape
    ∙ other_turn fuel c before after h.0
        (omega (
          arith,
          length-append (chunks_bytes cs) (data_tag ++ (size ++ samples)),
          length-append size samples,
        ))
        (omega (arith, whole))
    ∙ find_data_lem cs fuel (before ++ chunk_bytes c) size samples h.1 s l
        (omega (arith, whole, ap length grown)) (omega arith)
    ∙ ap (λ x. offset (length x + 8)) (append_assoc before (chunk_bytes c) (chunks_bytes cs))

-- A buffer of 44 bytes or more (and fewer than 2^63) that begins with "RIFF" and eight more bytes,
-- then any chunks that are not "data", each of exactly its size, then the chunk "data" and at least
-- one byte after its size: the offset is the one of that byte.
pub get_audio_data_offset-chunks :
    (cs : List Chunk) (fuel : ℕ) (form size samples : List ℕ)
    → 8 ≡ length form
    → All IsOther cs
    → 4 ≡ length size
    → 0 < length samples
    → 44 ≤ length ((riff_tag ++ form) ++ (chunks_bytes cs ++ (data_tag ++ (size ++ samples))))
    → length ((riff_tag ++ form) ++ (chunks_bytes cs ++ (data_tag ++ (size ++ samples)))) < 2 ^ 63
    → length cs < fuel
    → get_audio_data_offset fuel
        ((riff_tag ++ form) ++ (chunks_bytes cs ++ (data_tag ++ (size ++ samples))))
      ≡ offset (length ((riff_tag ++ form) ++ (chunks_bytes cs ++ (data_tag ++ size))))
unfolding get_audio_data_offset
get_audio_data_offset-chunks cs fuel form size samples e h s l large short f =
    let buffer = (riff_tag ++ form) ++ (chunks_bytes cs ++ (data_tag ++ (size ++ samples))) in
    let enough : ltb (length buffer) 44 ≡ false = ground arith in
    let twelve : 12 ≡ length (riff_tag ++ form) = omega (arith, length-append riff_tag form) in
    let end : length ((riff_tag ++ form) ++ chunks_bytes cs) + 8
        ≡ length ((riff_tag ++ form) ++ (chunks_bytes cs ++ (data_tag ++ size))) =
      omega (
        arith,
        s,
        length-append (riff_tag ++ form) (chunks_bytes cs),
        length-append (riff_tag ++ form) (chunks_bytes cs ++ (data_tag ++ size)),
        length-append (chunks_bytes cs) (data_tag ++ size),
        length-append data_tag size,
      ) in
    ap (λ b. if b then offset 44 else from_riff fuel buffer (bytes_at buffer 0 4)) enough
    ∙ ap (from_riff fuel buffer) (bytes_inside buffer 0 4 (omega arith))
    ∙ ap (find_data fuel buffer) twelve
    ∙ find_data_lem cs fuel (riff_tag ++ form) size samples h s l short f
    ∙ ap offset end
