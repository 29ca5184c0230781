-- ===== src/Tests/PitchShifter.antt =====
-- The pitch shifter over halves of whole numbers, which stand for `float`, at one input.
use hermes_flow_server.Common.{
  ℕ, zero, suc, ◌+◌, ◌*◌, ◌/◌, ◌^◌, ◌≤◌, ◌≡◌, refl, false, List, [], ◌∷◌, arith, if◌then◌else◌,
  length,
}
use hermes_flow_server.Common.Int.{
  ℤ, pos, negsuc, ◌+ℤ◌, ◌-ℤ◌, ltb_ℤ, leb_ℤ, sub_ℕ, int_laws, pos_part, neg_part,
}
use hermes_flow_server.Common.Post.{Post}
use hermes_flow_server.Audio.PitchShifter.{
  Float, PitchShifter, construct, process, phase_increment, delay_change_rate,
}
use hermes_flow_server.Audio.PitchShifter.Laws.{IsIeee, Between}
use hermes_flow_server.Audio.PitchShifter.Reads.{IsValid, loop_fuel}
use hermes_flow_server.Audio.PitchShifter.DelayLine.{Processed, process_lem}

abbrev neg : ℕ → ℤ
neg n = sub_ℕ 0 n

abbrev mul : ℤ → ℤ → ℤ
mul (pos a) (pos b) = pos (a * b)
mul (pos a) (negsuc b) = neg (a * suc b)
mul (negsuc a) (pos b) = neg (suc a * b)
mul (negsuc a) (negsuc b) = pos (suc a * suc b)

abbrev div : ℤ → ℤ → ℤ
div (pos a) (pos b) = pos (a / b)
div (pos a) (negsuc b) = neg (a / suc b)
div (negsuc a) (pos b) = neg (suc a / b)
div (negsuc a) (negsuc b) = pos (suc a / suc b)

abbrev magnitude : ℤ → ℤ
magnitude (pos a) = pos a
magnitude (negsuc a) = pos (suc a)

abbrev power : ℤ → ℤ → ℤ
power (pos a) (pos b) = pos (a ^ b)
power _ _ = pos 0

abbrev doubled : ℤ → ℤ
doubled (pos a) = pos (a * 2)
doubled (negsuc a) = negsuc (a * 2 + 1)

doubled_parts :
    (a : ℤ) → (pos_part (doubled a) ≡ pos_part a * 2) × (neg_part (doubled a) ≡ neg_part a * 2)
doubled_parts a = ground arith

ruleset halves_laws = (int_laws, doubled_parts)

abbrev halved : ℤ → ℤ
halved (pos a) = pos (a / 2)
halved (negsuc a) = neg (suc a / 2)

-- Numbers as their halves are counted, rounded towards 0.
abbrev halves : Float ℤ
halves = record {
  of_int = doubled;
  to_int = halved;
  half = pos 1;
  add = ◌+ℤ◌;
  sub = ◌-ℤ◌;
  mul = λ a b. halved (mul a b);
  div = λ a b. div (doubled a) b;
  abs = magnitude;
  pow = λ a b. doubled (power (halved a) (halved b));
  lt = ltb_ℤ;
  le = leb_ℤ;
  eq = λ a b. if leb_ℤ a b then leb_ℤ b a else false;
}

mul_range :
    (n : ℕ) (x : ℤ)
    → Between halves (pos 0) (pos 1) x
    → Between halves (pos 0) (pos n) (halved (mul x (pos (n * 2))))
mul_range n (pos zero) h = ground arith
mul_range n (pos (suc zero)) h = ground arith
mul_range n (pos (suc (suc zero))) h = ground arith
mul_range n (pos (suc (suc (suc k)))) h = ground arith
mul_range n (negsuc k) h = ground arith

add_range :
    (a b c d x y : ℤ)
    → Between halves a b x
    → Between halves c d y
    → Between halves (a +ℤ c) (b +ℤ d) (x +ℤ y)
add_range a b c d x y h k = grind halves_laws

sub_range :
    (a b c d x y : ℤ)
    → Between halves a b x
    → Between halves c d y
    → Between halves (a -ℤ d) (b -ℤ c) (x -ℤ y)
sub_range a b c d x y h k = grind halves_laws

to_int_range :
    (n : ℕ) (x : ℤ) → Between halves (pos 0) (pos n) x → (i : ℕ) × (halved x ≡ pos i) × (i ≤ n)
to_int_range n (pos i) h = (i / 2, refl, ground arith)
to_int_range n (negsuc i) h = absurd (ground arith)

halves-IsIeee : IsIeee halves
halves-IsIeee = record {
  le_trans = λ x y z h k. ground arith;
  of_int_mono = λ a b h. ground arith;
  of_int_order = λ a b h k l. ground arith;
  le_of_lt = λ x y h. ground arith;
  not_le_of_lt = λ x y h. ground arith;
  le_of_not_lt = λ a b c x h k. ground arith;
  le_of_not_le = λ a b c x h k. ground arith;
  add_range = λ a b c d x y h k ex e e'. add_range a b c d x y h k;
  sub_range = λ a b c d x y h k ex e e'. sub_range a b c d x y h k;
  mul_range = λ n x l h. mul_range n x h;
  to_int_range = λ n x l h. to_int_range n x h;
  half_range = (refl, refl);
}

-- 2 ms at 1 kHz, in stereo.
abbrev shifter : PitchShifter ℤ
shifter = construct halves 1000 2 2

abbrev pcm : List ℤ
pcm = pos 5 ∷ negsuc 6 ∷ pos 7 ∷ pos 8 ∷ pos 9 ∷ []

shifter-IsValid : IsValid halves shifter
unfolding construct
shifter-IsValid = ground arith

an_octave : Between halves (pos 0) (pos 1) (phase_increment halves shifter (pos 24))
unfolding phase_increment delay_change_rate construct ◌-ℤ◌
an_octave = (refl, refl)

process_lem_example :
    Post
      (Processed halves (length pcm / 2) pcm shifter)
      (process halves loop_fuel shifter pcm (pos 24))
unfolding construct
process_lem_example =
    process_lem halves halves-IsIeee pcm (pos 24) shifter shifter-IsValid (omega arith) refl
      an_octave
