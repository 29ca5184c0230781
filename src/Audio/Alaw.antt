-- ===== src/Audio/Alaw.antt =====
-- src/infra/audio/Alaw.cpp: the G.711 A-law tables and the loops that use them.
pub mod Expand
pub mod Tables
use hermes_flow_server.Common.{
  ℕ, zero, suc, ◌+◌, ◌-◌, ◌*◌, ◌/◌, ◌%◌, ◌^◌, Bool, true, false, ltb, ◌==◌, if◌then◌else◌, List, [],
  ◌∷◌, Option, none, some, length, get_or, set, bit_and, bit_or, bit_xor,
}
use hermes_flow_server.Common.Store.{store_from}
use hermes_flow_server.Common.Int.{ℤ, pos, negsuc, ◌+ℤ◌, ◌-ℤ◌, pos_part, leb_ℤ}
use hermes_flow_server.Audio.Pcm.{to_u16, to_i16}

abbrev pub base_alaw_mask : ℕ
base_alaw_mask = 0x55

abbrev pub sign_bit_mask : ℕ
sign_bit_mask = 0x80

abbrev pub quant_mask : ℕ
quant_mask = 0x0f

-- An `int16_t` sample plus 32768.
abbrev pub get_encode_table_idx : ℤ → ℕ
get_encode_table_idx (pos n) = n + 32768
get_encode_table_idx (negsuc n) = 32767 - n

-- `>>` and `& mask` of an `int`: arithmetic shift, and the low bits of two's complement.
abbrev pub shr : ℤ → ℕ → ℤ
shr (pos n) k = pos (n / 2 ^ k)
shr (negsuc n) k = negsuc (n / 2 ^ k)

abbrev pub and_mask : ℤ → ℕ → ℕ
and_mask (pos n) mask = bit_and n mask
and_mask (negsuc n) mask = bit_and (2 ^ 32 - 1 - n) mask

abbrev pub segment_edges : List ℕ
segment_edges = 0xff ∷ 0x1ff ∷ 0x3ff ∷ 0x7ff ∷ 0xfff ∷ 0x1fff ∷ 0x3fff ∷ 0x7fff ∷ []

-- The search for the segment: the number of edges where no edge is high enough.
abbrev pub find_segment : List ℕ → ℤ → ℕ
find_segment [] x = 0
find_segment (edge ∷ edges) x = if leb_ℤ x (pos edge) then 0 else suc (find_segment edges x)

abbrev pub alaw_mask : ℤ → ℕ
alaw_mask (pos n) = bit_or base_alaw_mask sign_bit_mask
alaw_mask (negsuc n) = base_alaw_mask

-- The magnitude of a negative sample, less 8.
abbrev pub normalize : ℤ → ℤ
normalize (pos n) = pos n
normalize (negsuc n) = pos (suc n) -ℤ pos 8

abbrev pub segment_shift : ℕ → ℕ
segment_shift segment = if segment == 0 then 4 else 3 + segment

abbrev pub quantize : ℤ → ℕ → ℕ
quantize x segment =
    if segment == 8
    then 0x7f
    else bit_or (and_mask (shr x (segment_shift segment)) quant_mask) (segment * 16 % 256)

-- The body of the loop of `make_encode_table`.
unfoldable pub encode_sample : ℤ → ℕ
unfolding ◌-ℤ◌
encode_sample s =
    bit_xor (quantize (normalize s) (find_segment segment_edges (normalize s))) (alaw_mask s)

-- `segments` is 8 or fewer, so the shifted value stays within an `int16_t`.
abbrev pub expand : ℕ → ℕ → ℕ
expand quant segment =
    let base = (if segment == 0 then quant * 16 + 0x008 else quant * 16 + 0x108) in
    if ltb 1 segment then base * 2 ^ (segment - 1) else base

-- The body of the loop of `make_decode_table`.
unfoldable pub decode_sample : ℕ → ℤ
unfolding ◌-ℤ◌
decode_sample a =
    let masked = bit_xor a base_alaw_mask in
    let pcm = expand (bit_and masked quant_mask) (bit_and masked 0x70 / 16) in
    if bit_and masked sign_bit_mask == 0 then pos 0 -ℤ pos pcm else pos pcm

-- The loops that fill the tables: `n` rounds from a sample on.
unfoldable pub fill_encode : ℕ → ℤ → List ℕ → List ℕ
fill_encode zero wide table = table
fill_encode (suc n) wide table =
    fill_encode n (wide +ℤ pos 1) (set table (get_encode_table_idx wide) (encode_sample wide))

unfoldable pub fill_decode : ℕ → ℕ → List ℕ → List ℕ
fill_decode zero wide table = table
fill_decode (suc n) wide table =
    fill_decode n (wide + 1) (set table wide (to_u16 (decode_sample wide)))

-- The array is not initialised: it starts as any list of its length.
unfoldable pub make_encode_table : List ℕ → List ℕ
make_encode_table garbage = fill_encode 65536 (negsuc 32767) garbage

unfoldable pub make_decode_table : List ℕ → List ℕ
make_decode_table garbage = fill_decode 256 0 garbage

-- Spans that are too small are left alone.
unfoldable pub encode_alaw : List ℕ → List ℤ → List ℕ → List ℕ
encode_alaw table pcm alaw_out =
    if ltb (length alaw_out) (length pcm)
    then alaw_out
    else store_from (λ s. get_or table (get_encode_table_idx s) 0) 0 pcm alaw_out

unfoldable pub decode_alaw : List ℕ → List ℕ → List ℤ → List ℤ
decode_alaw table alaw pcm_out =
    if ltb (length pcm_out) (length alaw)
    then pcm_out
    else store_from (λ a. to_i16 (get_or table a 0)) 0 alaw pcm_out
