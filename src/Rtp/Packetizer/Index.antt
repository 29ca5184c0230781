-- ===== src/Rtp/Packetizer/Index.antt =====
-- src/network/rtp/RTPPacketizer.cpp: the counters from packet to packet, and the index that they give.
use hermes_flow_server.Common.{
  ℕ, ◌+◌, ◌*◌, ◌%◌, ◌^◌, ◌<◌, ◌≡◌, ◌≢◌, refl, ◌∙◌, List, [], ◌∷◌, Option, none, some, length,
  ==_iff, ◌==◌, if◌then◌else◌, Bool-cases, inl, inr, arith,
}
use native.Mathlib.Decide.{ℕ_discrete}
use hermes_flow_server.Common.Bits.{bit_or_disjoint}
use hermes_flow_server.Rtp.Packet.Wire.{to_buffer}
use hermes_flow_server.Rtp.Packetizer.{
  RtpPacketizer, Encryption, current_header, protect, packet_index, advance_sequence, finish,
  packetize, next_index, run,
}

-- The fields hold values of their types.
pub record InRange (p : RtpPacketizer) : Type 0 where
  pub sequence_num_lt : p.sequence_num < 2 ^ 16
  pub roc_lt : p.roc < 2 ^ 32
  pub timestamp_lt : p.timestamp < 2 ^ 32

-- The 48-bit index of SRTP: the roll-over counter above the sequence number.
abbrev pub extended : RtpPacketizer → ℕ
extended p = p.roc * 65536 + p.sequence_num

advance_sequence_lem :
    (p : RtpPacketizer)
    → InRange p
    → InRange (advance_sequence p) × (extended (advance_sequence p) ≡ (extended p + 1) % 2 ^ 48)
unfolding advance_sequence
advance_sequence_lem p v = ground arith

finish-extended :
    (p : RtpPacketizer) (r : Option ℕ × List ℕ)
    → InRange p
    → InRange (finish p r).2 × (extended (finish p r).2 ≡ extended p)
unfolding finish
finish-extended p (none, b) v = (v, refl)
finish-extended p (some n, b) v = (omega arith, refl)

-- Every call moves the index on by one, whether or not the packet fits its buffer.
packetize-extended :
    (e : Option Encryption) (p : RtpPacketizer) (payload buffer : List ℕ)
    → InRange p
    → InRange (packetize e p payload buffer).2
      × (extended (packetize e p payload buffer).2 ≡ (extended p + 1) % 2 ^ 48)
unfolding packetize
packetize-extended e p payload buffer v =
    let a = advance_sequence_lem p v in
    let f =
      finish-extended (advance_sequence p)
        (to_buffer
          (record { header = current_header p; payload = protect e payload (next_index p) }) buffer)
        a.0 in
    (f.0, f.1 ∙ a.1)

run-extended :
    (e : Option Encryption) (p : RtpPacketizer) (calls : List (List ℕ × List ℕ))
    → InRange p
    → InRange (run e p calls) × (extended (run e p calls) ≡ (extended p + length calls) % 2 ^ 48)
unfolding run
run-extended e p [] v = (v, omega arith)
run-extended e p ((payload, buffer) ∷ calls) v =
    let s = packetize-extended e p payload buffer v in
    let r = run-extended e (packetize e p payload buffer).2 calls s.0 in (r.0, omega arith)

next_index_regular :
    (p : RtpPacketizer) → InRange p → p.sequence_num ≢ 65535 → next_index p ≡ extended p
unfolding next_index packet_index
next_index_regular p v h = ground (arith, bit_or_disjoint 16 p.roc p.sequence_num v.sequence_num_lt)

next_index_last :
    (p : RtpPacketizer)
    → InRange p
    → p.sequence_num ≡ 65535
    → next_index p ≡ (extended p + 65536) % 2 ^ 48
unfolding next_index packet_index
next_index_last p v h =
    ground (arith, bit_or_disjoint 16 ((p.roc + 1) % 2 ^ 32) p.sequence_num v.sequence_num_lt)

-- The index of a packet is the 48-bit index of SRTP, but for sequence number 65535, where it is
-- 2 ^ 16 higher, modulo 2 ^ 48.
pub next_index_lem :
    (p : RtpPacketizer)
    → InRange p
    → next_index p ≡ (if p.sequence_num == 65535 then (extended p + 65536) % 2 ^ 48 else extended p)
next_index_lem p v = elim (Bool-cases (p.sequence_num == 65535)) [
  | inl e ↦ rw e (next_index_last p v ((==_iff p.sequence_num 65535).0 e))
  | inr e ↦ rw e (next_index_regular p v (ground arith))
]

indices_apart :
    (p q : RtpPacketizer) (n : ℕ)
    → InRange p
    → InRange q
    → extended q ≡ (extended p + n) % 2 ^ 48
    → 0 < n
    → n < 2 ^ 48
    → next_index q ≢ next_index p
indices_apart p q n v w e lo hi same = elim (ℕ_discrete p.sequence_num 65535) [
  | yes a ↦ elim (ℕ_discrete q.sequence_num 65535) [
    | yes b ↦ omega (arith, next_index_last p v a, next_index_last q w b)
    | no b ↦ omega (arith, next_index_last p v a, next_index_regular q w b)
  ]
  | no a ↦ elim (ℕ_discrete q.sequence_num 65535) [
    | yes b ↦ omega (arith, next_index_regular p v a, next_index_last q w b)
    | no b ↦ omega (arith, next_index_regular p v a, next_index_regular q w b)
  ]
]

-- No two of any 2 ^ 48 packets in a row are encrypted under the same index, whatever their
-- payloads and whether or not they fit their buffers.
pub next_index-run-ne :
    (e : Option Encryption) (p : RtpPacketizer) (calls : List (List ℕ × List ℕ))
    → InRange p
    → 0 < length calls
    → length calls < 2 ^ 48
    → next_index (run e p calls) ≢ next_index p
next_index-run-ne e p calls v lo hi =
    let r = run-extended e p calls v in
    indices_apart p (run e p calls) (length calls) v r.0 r.1 lo hi
