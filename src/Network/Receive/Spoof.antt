-- ===== src/Network/Receive/Spoof.antt =====
-- What a datagram from a stranger can do.
use online_jam.Prelude.{
  ℕ, ◌-◌, ◌≡◌, ◌≢◌, refl, sym, ap, ◌∙◌, inl, inr, true, ◌&&◌, List, [], ◌∷◌, ◌++◌, Option, none,
  some, arith, ◌==◌, ==_iff, Bool-cases, Bytes, take, set, get_or-set_ne, replicate, length-append,
}
use online_jam.Protocol.{host_sender_id}
use online_jam.Protocol.Handshake.{SocketAddr}
use online_jam.Protocol.Packet.Endian.{to_be, length-to_be}
use online_jam.Protocol.Packet.Outcome.{Outcome, ok, err, panic}
use online_jam.Protocol.Packet.Parse
use online_jam.Protocol.Packet.Parse.Total.{datagram-ne-panic}
use online_jam.Protocol.Packet.Write.Sound.{Done, control-Done}
use online_jam.Protocol.Packet.Types.{Header, AudioPacket, Control, Payload}
use online_jam.Session.{StreamShared, HostShared, stream_of, new_stream}
use online_jam.Network.{AddrTable, addr_at}
use online_jam.Network.Arrival.{ArrivalJitter}
use online_jam.Network.Receive.{
  Rx, Times, Received, pong, pong_header, source, is_client, host_audio, host_control, host_parsed,
  at_host,
}

Done-some :
    (cap : ℕ) (bs : Bytes) (o : Option (Bytes × ℕ)) → Done cap bs o → (r : Bytes × ℕ) × (o ≡ some r)
Done-some cap bs none d = absurd d
Done-some cap bs (some r) d = (r, refl)

-- A PONG fits into its buffer.
pong-some : (t : Times) (id : ℕ) (h : Header) (t1 : ℕ) → (out : Bytes) × (pong t id h t1 ≡ some out)
unfolding pong
pong-some t id h t1 =
    let c = Control.pong t1 t.now_us t.reply_us in
    let a = length-to_be 8 t1 in
    let b = length-to_be 8 t.now_us in
    let d = length-to_be 8 t.reply_us in
    let e = length-append (to_be 8 t1) (to_be 8 t.now_us ++ to_be 8 t.reply_us) in
    let f = length-append (to_be 8 t.now_us) (to_be 8 t.reply_us) in
    let (r, e) =
      Done-some _ _ _ (control-Done c (pong_header id h) (replicate 64 0) tt (omega arith)) in
    (take r.1 r.0, rw (pong, e) refl)

source-some : (a : SocketAddr) (o : Option SocketAddr) → source a o ≡ true → o ≡ some a
source-some a none e = absurd (ground arith)
source-some a (some b) e = ap some ((==_iff b a).0 e)

-- An address may touch a slot that is its own.
abbrev pub IsStranger : SocketAddr → AddrTable → ℕ → Type 0
IsStranger from table k = addr_at table k ≢ some from

stranger-slot :
    (from : SocketAddr) (table : AddrTable) (j k : ℕ)
    → source from (addr_at table j) ≡ true
    → IsStranger from table k
    → j ≢ k
stranger-slot from table j k mine other same =
    other (ap (addr_at table) (sym same) ∙ source-some from (addr_at table j) mine)

-- What the state after a datagram from `from` has kept.
pub record Spares {F : Type 0} (from : SocketAddr) (before after : HostShared × Rx F) : Type 0 where
  pub addrs : after.1.client_addrs ≡ before.1.client_addrs
  pub streams :
      (k : ℕ)
      → IsStranger from before.1.client_addrs k
      → stream_of after.0.clients k ≡ stream_of before.0.clients k
  pub muted : after.0.muted ≡ before.0.muted
  pub soloed : after.0.soloed ≡ before.0.soloed

module _ {F : Type 0} (zero_f : F) (blend : F → ℕ → F) (bits : F → ℕ) (media : ℕ → ℕ) where
  spared : (from : SocketAddr) (st : HostShared × Rx F) → Spares from st st
  spared from st = record { addrs = refl; streams = λ k other. refl; muted = refl; soloed = refl }

  touched :
      (from : SocketAddr) (s : HostShared) (rx : Rx F) (slot : ℕ) (x : StreamShared)
      (js : List (ArrivalJitter F))
      → source from (addr_at rx.client_addrs slot) ≡ true
      → Spares from
          (s, rx)
          (record s { clients = set s.clients slot x }, record rx { jitters = js })
  touched from s rx slot x js mine = record {
    addrs = refl;
    streams = λ k other.
        get_or-set_ne s.clients slot k x new_stream
          (stranger-slot from rx.client_addrs slot k mine other);
    muted = refl;
    soloed = refl;
  }

  host_audio-Spares :
      (n now : ℕ) (from : SocketAddr) (h : Header) (p : AudioPacket) (s : HostShared) (rx : Rx F)
      → Spares from (s, rx) (host_audio zero_f blend bits media n now from h p (s, rx))
  unfolding host_audio
  host_audio-Spares n now from h p s rx =
      let slot = h.sender_id - 1 in
      elim (Bool-cases (h.session_id == s.session_id)) [
        | inr foreign ↦ rw (host_audio, foreign) (spared from (s, rx))
        | inl ours ↦ elim (Bool-cases (is_client h.sender_id)) [
          | inr nobody ↦ rw (host_audio, ours, nobody) (spared from (s, rx))
          | inl client ↦ elim (Bool-cases (source from (addr_at rx.client_addrs slot))) [
            | inr spoofed ↦ rw (host_audio, ours, client, spoofed) (spared from (s, rx))
            | inl mine ↦ rw (host_audio, ours, client, mine) (touched from s rx slot _ _ mine)
          ]
        ]
      ]

  host_control-Spares :
      (now : ℕ) (from : SocketAddr) (h : Header) (s : HostShared) (rx : Rx F)
      → Spares from (s, rx) (host_control zero_f blend bits media now from h s rx, rx)
  unfolding host_control
  host_control-Spares now from h s rx =
      let slot = h.sender_id - 1 in
      elim (Bool-cases (is_client h.sender_id && source from (addr_at rx.client_addrs slot))) [
        | inr spoofed ↦ rw (host_control, spoofed) (spared from (s, rx))
        | inl mine ↦ rw (host_control, mine) (touched from s rx slot _ rx.jitters (ground arith))
      ]

  host_parsed-Spares :
      (n : ℕ) (t : Times) (from : SocketAddr) (o : Outcome (Header × Payload)) (s : HostShared)
      (rx : Rx F)
      → o ≢ panic
      → (r : Received (HostShared × Rx F)) × (host_parsed zero_f blend bits media n t from o (s, rx)
          ≡ some r)
        × Spares from (s, rx) r.state
  unfolding host_parsed
  host_parsed-Spares n t from panic s rx fine = absurd (fine refl)
  host_parsed-Spares n t from (err _) s rx fine = (_, refl, spared from (s, rx))
  host_parsed-Spares n t from (ok (h, Payload.audio p)) s rx fine =
      (_, refl, host_audio-Spares n t.now_us from h p s rx)
  host_parsed-Spares n t from (ok (h, Payload.control (Control.ping t1))) s rx fine =
      let (out, e) = pong-some t host_sender_id h t1 in
      let r : Received (HostShared × Rx F) = record {
        state = (s, rx);
        sent = (from, out) ∷ [];
        events = [];
      } in
      (r, rw e refl, spared from (s, rx))
  host_parsed-Spares n t from (ok (h, Payload.control control)) s rx fine =
      (_, refl, host_control-Spares t.now_us from h s rx)

  -- No datagram makes the host's receive thread panic. None changes the address table, nor mute or
  -- solo, nor the stream of a slot whose registered address is not the datagram's source.
  pub at_host-Spares :
      (n : ℕ) (t : Times) (from : SocketAddr) (datagram : Bytes) (s : HostShared) (rx : Rx F)
      → (r : Received (HostShared × Rx F)) × (at_host zero_f blend bits media n t from datagram
            (s, rx)
          ≡ some r)
        × Spares from (s, rx) r.state
  unfolding at_host
  at_host-Spares n t from datagram s rx =
      host_parsed-Spares n t from (Parse.datagram datagram) s rx (datagram-ne-panic datagram)
