-- ===== src/Graph/FileInput.antt =====
-- src/core/graph/nodes/FileInputNode.cpp: opening a file, reading blocks of it, and the gain.
use hermes_flow_server.Common.{
  ℕ, zero, suc, ◌+◌, ◌-◌, ◌/◌, ◌%◌, ◌^◌, ◌≤◌, ◌<◌, ◌≡◌, ◌*◌, Bool-cases, inl, inr, sym, subst, refl,
  Bool, true, false, not, ◌&&◌, Option, none, some, List, [], ◌∷◌, map, ltb, if◌then◌else◌, arith,
}
use hermes_flow_server.Common.Expected.{Expected, value, unexpected}
use hermes_flow_server.Common.Int.{ℤ, pos, negsuc, ltb_ℤ, ◌≤ℤ◌, pos_part}
use hermes_flow_server.Types.{NodeErrorCode, file_io_error}
use hermes_flow_server.Audio.Mixing.{to_i32}
use hermes_flow_server.Audio.Wav.{
  Outcome, offset, out_of_bounds, out_of_fuel, get_audio_data_offset,
}

-- What the file gives to one attempt of `open`: whether it opens, the bytes of its beginning where
-- they can be read (at most 256), whether seeking past the header fails, and its size.
pub record Attempt : Type 0 where
  pub is_open : Bool
  pub header : Option (List ℕ)
  pub seek_error : Bool
  pub file_size : ℕ

-- The offset of the search, which has fuel for the whole header.
abbrev pub offset_in : Outcome → ℕ
offset_in (offset n) = n
offset_in out_of_bounds = 0
offset_in out_of_fuel = 0

abbrev pub header_offset : Option (List ℕ) → ℕ
header_offset none = 0
header_offset (some []) = 0
header_offset (some (b ∷ bs)) = offset_in (get_audio_data_offset 257 (b ∷ bs))

-- The offset that the file is at, and the number of whole frames from there on.
unfoldable pub opened : Attempt → ℕ × ℤ
opened a =
    let n = if a.seek_error then 0 else header_offset a.header in
    (n, to_i32 ((if ltb n a.file_size then a.file_size - n else 0) / 320 % 2 ^ 32))

-- The loop of `open`, with the attempts that are left: the offset and `total_frames_`, which is 0
-- after a failure.
unfoldable pub open_from : ℕ → (ℕ → Attempt) → ℕ → Expected NodeErrorCode (ℕ × ℤ)
unfolding opened
open_from zero attempts attempt = unexpected file_io_error
open_from (suc left) attempts attempt =
    let rest = open_from left attempts (attempt + 1) in
    let a = attempts attempt in if a.is_open then value (opened a) else rest

unfoldable pub open_file : (ℕ → Attempt) → Expected NodeErrorCode (ℕ × ℤ)
unfolding open_from
open_file attempts = open_from 3 attempts 0

-- The result of `async_read`: bytes, with the end of the file or without; or another error.
pub data Read : Type 0 where
  read : ℕ → Read
  failed : Read

-- The loop of `fetch_bytes`, with the attempts that are left.
unfoldable pub fetch_from : ℕ → (ℕ → Read) → ℕ → ℕ
fetch_from zero reads attempt = 0
fetch_from (suc left) reads attempt =
    let rest = fetch_from left reads (attempt + 1) in
    elim (reads attempt) [ read n ↦ n | failed ↦ rest ]

abbrev pub is_value : Expected NodeErrorCode (ℕ × ℤ) → Bool
is_value (value a) = true
is_value (unexpected e) = false

unfoldable pub fetch_bytes : Bool → (ℕ → Attempt) → (ℕ → Read) → ℕ
unfolding open_file fetch_from
fetch_bytes is_open attempts reads =
    if not is_open && not (is_value (open_file attempts)) then 0 else fetch_from 3 reads 0

-- `std::clamp` to the samples.
abbrev pub clamp : ℤ → ℤ
clamp n =
    if ltb_ℤ n (negsuc 32767) then negsuc 32767 else (if ltb_ℤ (pos 32767) n then pos 32767 else n)

-- The samples after the gain, where there is an options node: `boost` is the multiplication, and
-- `is_one` whether the gain is 1.
unfoldable pub apply_gain : Bool → (ℤ → ℤ) → List ℤ → List ℤ
apply_gain is_one boost samples = if is_one then samples else map (λ s. clamp (boost s)) samples

-- The frames of a file of fewer than 2^31 bytes lie between the offset and its end, and what is left
-- is less than a frame; nothing is taken from a file that ends before the offset.
abbrev pub FramesFit : ℕ → ℕ × ℤ → Type 0
FramesFit size (n, total) =
    (pos 0 ≤ℤ total) × (pos_part total * 320 ≤ size - n) × (size - n < (pos_part total + 1) * 320)

opened-FramesFit : (a : Attempt) → a.file_size < 2 ^ 31 → FramesFit a.file_size (opened a)
unfolding opened
opened-FramesFit a h = let n = if a.seek_error then 0 else header_offset a.header in ground arith

-- What `open` gives, by the first of three attempts that succeeds.
abbrev pub Opens : (ℕ → Attempt) → Expected NodeErrorCode (ℕ × ℤ) → Type 0
Opens attempts (value r) =
    (i : ℕ) × (i < 3)
    × ((attempts i).is_open ≡ true)
    × (r ≡ opened (attempts i))
    × FramesFit (attempts i).file_size r
Opens attempts (unexpected e) =
    (e ≡ file_io_error)
    × ((attempts 0).is_open ≡ false)
    × ((attempts 1).is_open ≡ false)
    × ((attempts 2).is_open ≡ false)

attempt-Opens :
    (attempts : ℕ → Attempt) (i : ℕ)
    → ((j : ℕ) → (attempts j).file_size < 2 ^ 31)
    → i < 3
    → (attempts i).is_open ≡ true
    → Opens attempts (value (opened (attempts i)))
attempt-Opens attempts i small l o = (i, l, o, refl, opened-FramesFit (attempts i) (small i))

-- Where the file has fewer than 2^31 bytes whenever it is looked at: `open` fails where three
-- attempts in a row fail; else it ends with one that succeeds, and its whole frames are those
-- between the offset and the end of the file.
pub open_file-Opens :
    (attempts : ℕ → Attempt)
    → ((j : ℕ) → (attempts j).file_size < 2 ^ 31)
    → Opens attempts (open_file attempts)
unfolding open_file open_from
open_file-Opens attempts small = elim (Bool-cases (attempts 0).is_open) [
  | inl o ↦ first_step (attempts 0).is_open o _ _ (attempt-Opens attempts 0 small (omega arith) o)
  | inr c ↦ other_step (attempts 0).is_open c _ _ (elim (Bool-cases (attempts 1).is_open) [
    | inl o ↦ first_step (attempts 1).is_open o _ _ (attempt-Opens attempts 1 small (omega arith) o)
    | inr d ↦ other_step (attempts 1).is_open d _ _ (elim (Bool-cases (attempts 2).is_open) [
      | inl o ↦
          first_step (attempts 2).is_open o _ _ (attempt-Opens attempts 2 small (omega arith) o)
      | inr e ↦ other_step (attempts 2).is_open e _ _ (refl, c, d, e)
    ])
  ])
]
  where
    first_step :
        (b : Bool)
        → b ≡ true
        → (r rest : Expected NodeErrorCode (ℕ × ℤ)) → Opens attempts r
        → Opens attempts (if b then r else rest)
    first_step b e r rest h = subst (λ c. Opens attempts (if c then r else rest)) (sym e) h

    other_step :
        (b : Bool)
        → b ≡ false
        → (r rest : Expected NodeErrorCode (ℕ × ℤ)) → Opens attempts rest
        → Opens attempts (if b then r else rest)
    other_step b e r rest h = subst (λ c. Opens attempts (if c then r else rest)) (sym e) h
