-- ===== src/Pipeline/Host/Lanes.antt =====
-- The loops over the clients in `HostPipeline::process_frame` of crates/jam-core/src/pipeline.rs.
use online_jam.Prelude.{
  ℕ, suc, ◌≡◌, refl, sym, if◌then◌else◌, ap, ◌∙◌, inl, inr, Bool, true, false, List, [], ◌∷◌, none,
  some, arith, Bool-cases, All, Bytes, length, map, replicate, length-map, length-replicate,
}
use online_jam.Protocol.{host_sender_id}
use online_jam.Audio.Codec.{Codecs, AudioDecoder}
use online_jam.Audio.Jitter.Slots.{IsBuffer}
use online_jam.Audio.Mixer
use online_jam.Audio.Mixer.{Real, SmoothedGain, length-zip_into, zip_into, zero_f, one}
use online_jam.Playout.{Dsp, StreamPlayout, reset_stream}
use online_jam.Playout.Pull.{IsDsp, IsStream}
use online_jam.Playout.Stage.{reset_stream-IsStream}
use online_jam.Playout.Total.{tick-Returns_at}
use online_jam.Session.{StreamShared, HostShared}
use online_jam.Pipeline.{EngineParams}
use online_jam.Pipeline.Send.{IsSender, Steps}
use online_jam.Pipeline.Host.{
  Lane, Pulled, Voice, pull_lane, pull_lanes, smoothed, scaled_by, mix_lanes, heard_by,
}

module _ {N D R E F S : Type 0} where
  -- What holds of a client's part of the host's pipeline between ticks.
  pub record IsLane (params : EngineParams) (n : ℕ) (lane : Lane N D R E F S) : Type 0 where
    pub playout : IsStream lane.playout
    pub frame : lane.playout.frame ≡ n
    pub sender : IsSender params lane.sender

  abbrev pub IsLanes : EngineParams → ℕ → List (Lane N D R E F S) → Type 0
  IsLanes params n lanes = All (IsLane params n) lanes

  -- The sends of a tick, from client `c` on, where `frames` are the frames that the clients are to
  -- hear, and the buffer that the encoders share is `buf` before and passed on from each to the next.
  -- A slot that is not active is left out. The frame of an active one is given to its encoder, and a
  -- datagram for `c` goes out if and only if the encoder takes it.
  pub data Round (lib : Codecs N D S) (params : EngineParams) (session_id clock : ℕ)
      : ℕ
        → (buf : Bytes) → List StreamShared
        → (before after : List (Lane N D R E F S)) → (frames : List (List S)) → List (ℕ × Bytes)
        → Type 0 where
    ends : (c : ℕ) (buf : Bytes) → Round lib params session_id clock c buf [] [] [] [] []
    idle :
        (c : ℕ) (buf : Bytes) (stream : StreamShared) (streams : List StreamShared)
        (l l' : Lane N D R E F S) (ls ls' : List (Lane N D R E F S)) (frame : List S)
        (frames : List (List S)) (items : List (ℕ × Bytes))
        → stream.active ≡ false
        → l'.sender ≡ l.sender
        → Round lib params session_id clock (suc c) buf streams ls ls' frames items
        → Round lib params session_id clock c buf
            (stream ∷ streams)
            (l ∷ ls)
            (l' ∷ ls')
            (frame ∷ frames)
            items
    refused :
        (c : ℕ) (buf buf' : Bytes) (stream : StreamShared) (streams : List StreamShared)
        (l l' : Lane N D R E F S) (ls ls' : List (Lane N D R E F S)) (frame : List S)
        (frames : List (List S)) (items : List (ℕ × Bytes))
        → stream.active ≡ true
        → Steps lib params session_id host_sender_id clock frame l.sender l'.sender buf buf' none
        → Round lib params session_id clock (suc c) buf' streams ls ls' frames items
        → Round lib params session_id clock c buf
            (stream ∷ streams)
            (l ∷ ls)
            (l' ∷ ls')
            (frame ∷ frames)
            items
    sent :
        (c : ℕ) (buf buf' : Bytes) (stream : StreamShared) (streams : List StreamShared)
        (l l' : Lane N D R E F S) (ls ls' : List (Lane N D R E F S)) (frame : List S)
        (frames : List (List S)) (datagram : Bytes) (items : List (ℕ × Bytes))
        → stream.active ≡ true
        → Steps lib params session_id host_sender_id clock frame l.sender l'.sender buf buf'
            (some datagram)
        → Round lib params session_id clock (suc c) buf' streams ls ls' frames items
        → Round lib params session_id clock c buf
            (stream ∷ streams)
            (l ∷ ls)
            (l' ∷ ls')
            (frame ∷ frames)
            ((c, datagram) ∷ items)

  -- A lane once its frame is pulled: its sender is as it was.
  pub record IsPulled (n : ℕ) (stream : StreamShared) (lane lane' : Lane N D R E F S)
      (decoded : List S) : Type 0 where
    pub playout : IsStream lane'.playout
    pub frame : lane'.playout.frame ≡ n
    pub sender : lane'.sender ≡ lane.sender
    pub active : lane'.last_active ≡ stream.active
    pub size : length decoded ≡ n

  abbrev pub Pulls :
      ℕ → List StreamShared → List (Lane N D R E F S) → List (Pulled N D R E F S) → Type 0
  Pulls n [] [] [] = Unit
  Pulls n (s ∷ ss) (l ∷ ls) (p ∷ ps) = IsPulled n s l p.lane p.decoded × Pulls n ss ls ps
  Pulls n _ _ _ = ⊥

  abbrev pub Voices :
      ℕ → List StreamShared → List (Lane N D R E F S) → List (Voice N D R E F S) → Type 0
  Voices n [] [] [] = Unit
  Voices n (s ∷ ss) (l ∷ ls) (v ∷ vs) = IsPulled n s l v.lane v.decoded × Voices n ss ls vs
  Voices n _ _ _ = ⊥

-- The jitter buffers of the streams.
abbrev pub HasBuffer : StreamShared → Type 0
HasBuffer s = IsBuffer s.jb

module _ {N D R E G F S : Type 0} (real : Real S) (lib : Codecs N D S)
    (dsp : Dsp (AudioDecoder D) R E G F S) (valid : IsDsp dsp) where
  awake :
      (lane : Lane N D R E F S)
      → IsStream lane.playout
      → (playout : StreamPlayout (AudioDecoder D) R E F S) × ((if lane.last_active
            then some lane.playout
            else reset_stream dsp lane.playout)
          ≡ some playout)
        × IsStream playout
        × (playout.frame ≡ lane.playout.frame)
  awake lane v = elim (Bool-cases lane.last_active) [
    | inl on ↦ (lane.playout, rw on refl, v, refl)
    | inr off ↦
        let (p, e, v', same) = reset_stream-IsStream dsp valid lane.playout v in
        (p, rw off e, v', same)
  ]

  pull_lane-IsPulled :
      (params : EngineParams) (n : ℕ) (stream : StreamShared) (lane : Lane N D R E F S)
      → HasBuffer stream
      → IsLane params n lane
      → (p : Pulled N D R E F S) × (pull_lane real lib dsp n stream lane ≡ some p)
        × HasBuffer p.stream
        × IsPulled n stream lane p.lane p.decoded
  unfolding pull_lane
  pull_lane-IsPulled params n stream lane b v = elim (Bool-cases stream.active) [
    | inr off ↦ (
      record {
        stream = stream;
        lane = record lane { last_active = false };
        decoded = replicate n (zero_f real);
      },
      rw (pull_lane, off) refl,
      b,
      record {
        playout = v.playout;
        frame = v.frame;
        sender = refl;
        active = sym off;
        size = length-replicate n (zero_f real);
      },
    )
    | inl on ↦
        let (playout, woken, v', same) = awake lane v.playout in
        let (t, e, ticked) = tick-Returns_at dsp valid stream.jb playout n (same ∙ v.frame) b v' in
        (
          record {
            stream = record stream { jb = t.jb };
            lane = record lane { playout = t.stream; last_active = true };
            decoded = t.out;
          },
          rw (pull_lane, on, woken, e) refl,
          ticked.buffer,
          record {
            playout = ticked.stream;
            frame = ticked.frame_kept;
            sender = refl;
            active = sym on;
            size = ticked.out;
          },
        )
  ]

  pub pull_lanes-Pulls :
      (params : EngineParams) (n : ℕ) (streams : List StreamShared)
      (lanes : List (Lane N D R E F S))
      → All HasBuffer streams
      → IsLanes params n lanes
      → length streams ≡ length lanes
      → (ps : List (Pulled N D R E F S)) × (pull_lanes real lib dsp n streams lanes ≡ some ps)
        × All HasBuffer (map (λ p. p.stream) ps)
        × (length ps ≡ length lanes)
        × Pulls n streams lanes ps
  unfolding pull_lanes
  pull_lanes-Pulls params n [] [] bs vs same = ([], refl, tt, refl, tt)
  pull_lanes-Pulls params n [] (l ∷ ls) bs vs same = absurd (omega arith)
  pull_lanes-Pulls params n (s ∷ ss) [] bs vs same = absurd (omega arith)
  pull_lanes-Pulls params n (s ∷ ss) (l ∷ ls) (b, bs) (v, vs) same =
      let (p, e, b', v') = pull_lane-IsPulled params n s l b v in
      let (ps, es, bs', size, vs') = pull_lanes-Pulls params n ss ls bs vs (omega arith) in
      (p ∷ ps, rw (e, es) refl, (b', bs'), ap suc size, (v', vs'))

module _ {S : Type 0} (real : Real S) where
  length-added :
      (c : Bool) (mix xs : List S)
      → length (if c then zip_into real.add mix xs else mix) ≡ length mix
  length-added true mix xs = length-zip_into real.add mix xs
  length-added false mix xs = refl

module _ {N D R E F S : Type 0} (real : Real S) where
  pub mix_lanes-Voices :
      (shared : HostShared) (gains : List S) (any : Bool) (p : ℕ) (mix : List S) (n : ℕ)
      (streams : List StreamShared) (lanes : List (Lane N D R E F S))
      (ps : List (Pulled N D R E F S))
      → Pulls n streams lanes ps
      → (length (mix_lanes real shared gains any p mix ps).0 ≡ length mix)
        × Voices n streams lanes (mix_lanes real shared gains any p mix ps).1
  unfolding mix_lanes
  mix_lanes-Voices shared gains any p mix n [] [] [] h = (refl, tt)
  mix_lanes-Voices shared gains any p mix n (s ∷ ss) (l ∷ ls) (v ∷ vs) (h, hs) =
      let g = smoothed real shared gains any p v.lane.smoother in
      let scaled = scaled_by real g v.decoded in
      let mix' = if v.lane.last_active then zip_into real.add mix scaled else mix in
      let (size, rest) = mix_lanes-Voices shared gains any (suc p) mix' n ss ls vs hs in
      (
        size ∙ length-added real v.lane.last_active mix scaled,
        (
          record {
            playout = h.playout;
            frame = h.frame;
            sender = h.sender;
            active = h.active;
            size = h.size;
          },
          rest,
        ),
      )
  mix_lanes-Voices shared gains any p mix n [] [] (v ∷ vs) h = absurd h
  mix_lanes-Voices shared gains any p mix n [] (l ∷ ls) vs h = absurd h
  mix_lanes-Voices shared gains any p mix n (s ∷ ss) [] vs h = absurd h
  mix_lanes-Voices shared gains any p mix n (s ∷ ss) (l ∷ ls) [] h = absurd h

  pub length-heard_by :
      (params : EngineParams) (mix : List S) (v : Voice N D R E F S) {n : ℕ}
      → length mix ≡ n
      → length v.decoded ≡ n
      → length (heard_by real params mix v) ≡ n
  unfolding heard_by Mixer.unmix_scaled Mixer.soft_clip_buf
  length-heard_by params mix v size own = elim (Bool-cases params.echo) [
    | inl echo ↦ rw (echo, heard_by) (length-map (Mixer.soft_clip real) v.decoded ∙ own)
    | inr mixed ↦
        let heard = Mixer.unmix_scaled real mix v.scaled (one real) in
        rw (mixed, heard_by)
          (length-map (Mixer.soft_clip real) heard ∙ length-zip_into _ mix v.scaled ∙ size)
  ]
