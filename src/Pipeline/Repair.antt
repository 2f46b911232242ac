-- ===== src/Pipeline/Repair.antt =====
-- The redundant copies of crates/jam-core/src/pipeline.rs at the receiver of crates/jam-core/src/net.rs.
use online_jam.Prelude.{
  ℕ, ◌+◌, ◌-◌, ◌%◌, ◌^◌, ◌≤◌, ◌<◌, ◌≡◌, refl, true, some, arith, ltb, Bytes, length,
}
use online_jam.Protocol.{u32_mod}
use online_jam.Protocol.Seq.{wrapping_sub}
use online_jam.Audio.Jitter
use online_jam.Audio.Jitter.{JitterBuffer}
use online_jam.Network.Receive.{push_redundant}
use online_jam.Pipeline.{EngineParams, Sender, redundant_copy, advance}
use online_jam.Pipeline.Send.{Carries, header_of, packet_of}

-- Where two frames in a row go out with redundancy on, and the first one's payload is not empty, the
-- copy in the second one's datagram repairs the loss of the first one's: a receiver of the second
-- pushes into its jitter buffer the first frame's payload under the sequence number and the timestamp
-- that the first one's datagram had, across the wrap of both.
pub push_redundant-Carries :
    {N : Type 0} (params : EngineParams) (session_id sender_id clock n : ℕ) (s0 s1 s2 : Sender N)
    (first second : Bytes) (c0 : Carries params session_id sender_id clock s0 s1 first)
    (c1 : Carries params session_id sender_id (advance clock n) s1 s2 second) (jb : JitterBuffer)
    → params.redundancy ≡ true
    → 1 ≤ length c0.payload
    → s0.seq.value < 2 ^ 16
    → clock < u32_mod
    → push_redundant n
        (header_of session_id sender_id s1.seq.value)
        (packet_of params (advance clock n) c1.payload (redundant_copy params s1.prev_enc))
        jb
      ≡ (Jitter.push jb s0.seq.value clock c0.payload).0
unfolding push_redundant
push_redundant-Carries params session_id sender_id clock n s0 s1 s2 first second c0 c1 jb on full
      seq time =
    let some_kept : ltb 0 (length c0.payload) ≡ true = ground arith in
    let copy : redundant_copy params s1.prev_enc ≡ some c0.payload =
      rw (on, c0.prev, some_kept) refl in
    let same_seq : wrapping_sub s1.seq.value 1 ≡ s0.seq.value = rw c0.seq (omega arith) in
    let same_time : (advance clock n + u32_mod - n % u32_mod) % u32_mod ≡ clock = omega arith in
    rw (copy, push_redundant, same_seq, same_time) refl
