-- ===== src/Pipeline/Host/Emits.antt =====
-- The sends of `HostPipeline::process_frame` of crates/jam-core/src/pipeline.rs, client by client.
use online_jam.Prelude.{
  ℕ, suc, ◌^◌, ◌≤◌, ◌<◌, ◌≡◌, refl, sym, ap, ◌∙◌, inl, inr, true, List, [], ◌∷◌, Option, none, some,
  arith, if◌then◌else◌, Bool-cases, Bytes, length, map,
}
use online_jam.Protocol.{u32_mod, host_sender_id}
use online_jam.Audio.Codec.{Codecs, AudioDecoder}
use online_jam.Audio.Codec.Sound.{IsCodecs}
use online_jam.Audio.Mixer.{Real}
use online_jam.Playout.{Dsp}
use online_jam.Session.{StreamShared}
use online_jam.Pipeline.{EngineParams, Buffers, Sent, unsent, send}
use online_jam.Pipeline.Send.{IsSender, IsBuffers, Steps, send-Steps}
use online_jam.Pipeline.Host.{Lane, Voice, Sends, heard_by, emit, send_lanes}
use online_jam.Pipeline.Host.Lanes.{IsLanes, Round, Voices, IsPulled, length-heard_by}

module _ {N D R E F S : Type 0} (lib : Codecs N D S) (params : EngineParams)
    (session_id clock : ℕ) where
  -- One more client, with or without a datagram.
  one_more :
      (c : ℕ) (buf buf' : Bytes) (stream : StreamShared) (streams : List StreamShared)
      (l l' : Lane N D R E F S) (ls ls' : List (Lane N D R E F S)) (frame : List S)
      (frames : List (List S)) (datagram : Option Bytes) (items : List (ℕ × Bytes))
      → stream.active ≡ true
      → Steps lib params session_id host_sender_id clock frame l.sender l'.sender buf buf' datagram
      → Round lib params session_id clock (suc c) buf' streams ls ls' frames items
      → Round lib params session_id clock c buf
          (stream ∷ streams)
          (l ∷ ls)
          (l' ∷ ls')
          (frame ∷ frames)
          (emit c datagram items)
  one_more c buf buf' stream streams l l' ls ls' frame frames none items on steps rest =
      Round.refused c buf buf' stream streams l l' ls ls' frame frames items on steps rest
  one_more c buf buf' stream streams l l' ls ls' frame frames (some bytes) items on steps rest =
      Round.sent c buf buf' stream streams l l' ls ls' frame frames bytes items on steps rest

module _ {N D R E G F S : Type 0} (real : Real S) (lib : Codecs N D S)
    (dsp : Dsp (AudioDecoder D) R E G F S) (codecs : IsCodecs lib) (params : EngineParams)
    (session_id clock : ℕ) (session : session_id < 2 ^ 16) (time : clock < u32_mod) where
  -- One client's send.
  send_lane-Steps :
      (n : ℕ) (mix : List S) (stream : StreamShared) (l : Lane N D R E F S) (v : Voice N D R E F S)
      (b : Buffers)
      → n ≤ 240
      → length mix ≡ n
      → IsPulled n stream l v.lane v.decoded
      → IsSender params l.sender
      → IsBuffers b
      → (o : Sent N) × ((if v.lane.last_active
            then send lib params session_id host_sender_id clock
                (heard_by real params mix v)
                v.lane.sender
                b
            else some (unsent v.lane.sender b))
          ≡ some o)
        × IsSender params o.sender
        × IsBuffers o.buffers
        × ((c : ℕ) (streams : List StreamShared) (l' : Lane N D R E F S)
              (ls ls' : List (Lane N D R E F S)) (frames : List (List S)) (items : List (ℕ × Bytes))
            → l'.sender ≡ o.sender
            → Round lib params session_id clock
                (suc c)
                o.buffers.enc_buf
                streams
                ls
                ls'
                frames
                items
            → Round lib params session_id clock c b.enc_buf
                (stream ∷ streams)
                (l ∷ ls)
                (l' ∷ ls')
                (heard_by real params mix v ∷ frames)
                (emit c o.datagram items))
  send_lane-Steps n mix stream l v b high size h s w = elim (Bool-cases v.lane.last_active) [
    | inr off ↦ (
      unsent v.lane.sender b,
      rw off refl,
      rw h.sender s,
      w,
      λ c streams l' ls ls' frames items same rest.
          Round.idle c b.enc_buf stream streams l l' ls ls' (heard_by real params mix v) frames
            items (sym h.active ∙ off) (same ∙ h.sender) rest,
    )
    | inl on ↦
        let (o, e, s', w', steps) =
          send-Steps lib codecs params session_id host_sender_id clock session (omega arith) time
            (heard_by real params mix v) v.lane.sender b
            (omega (arith, length-heard_by real params mix v size h.size)) (rw h.sender s) w in
        (
          o,
          ap
                (λ active.
                  if active
                  then send lib params session_id host_sender_id clock (heard_by real params mix v)
                      v.lane.sender b
                  else some (unsent v.lane.sender b))
                on
              ∙ e,
          s',
          w',
          λ c streams l' ls ls' frames items same rest.
              one_more lib params session_id clock c b.enc_buf o.buffers.enc_buf stream streams l l'
                ls ls' (heard_by real params mix v) frames o.datagram items (sym h.active ∙ on)
                (rw (same, ← h.sender) steps) rest,
        )
  ]

  pub send_lanes-Round :
      (n : ℕ) (mix : List S) (c : ℕ) (streams : List StreamShared) (ls : List (Lane N D R E F S))
      (vs : List (Voice N D R E F S)) (b : Buffers)
      → n ≤ 240
      → length mix ≡ n
      → Voices n streams ls vs
      → IsLanes params n ls
      → IsBuffers b
      → (o : Sends N D R E F S) × (send_lanes real lib dsp params session_id clock mix c b vs
          ≡ some o)
        × IsLanes params n o.lanes
        × (length o.lanes ≡ length ls)
        × IsBuffers o.buffers
        × Round lib params session_id clock c b.enc_buf streams ls o.lanes
            (map (heard_by real params mix) vs)
            o.emitted
  unfolding send_lanes
  send_lanes-Round n mix c [] [] [] b high size h lanes w =
      (record { lanes = []; buffers = b; emitted = [] }, refl, tt, refl, w, Round.ends c b.enc_buf)
  send_lanes-Round n mix c (s ∷ ss) (l ∷ ls) (v ∷ vs) b high size (h, hs) (lane, lanes) w =
      let (o, e, s', w', step) = send_lane-Steps n mix s l v b high size h lane.sender w in
      let (r, es, lanes', count, w'', round) =
        send_lanes-Round n mix (suc c) ss ls vs o.buffers high size hs lanes w' in
      let l' : Lane N D R E F S = record v.lane { sender = o.sender } in
      (
        record r { lanes = l' ∷ r.lanes; emitted = emit c o.datagram r.emitted },
        rw (e, es) refl,
        (record { playout = h.playout; frame = h.frame; sender = s' }, lanes'),
        ap suc count,
        w'',
        step c ss l' ls r.lanes (map (heard_by real params mix) vs) r.emitted refl round,
      )
  send_lanes-Round n mix c [] [] (v ∷ vs) b high size h lanes w = absurd h
  send_lanes-Round n mix c [] (l ∷ ls) vs b high size h lanes w = absurd h
  send_lanes-Round n mix c (s ∷ ss) [] vs b high size h lanes w = absurd h
  send_lanes-Round n mix c (s ∷ ss) (l ∷ ls) [] b high size h lanes w = absurd h
