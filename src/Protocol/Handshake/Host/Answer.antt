-- ===== src/Protocol/Handshake/Host/Answer.antt =====
-- What a HELLO does to the host of crates/jam-protocol/src/handshake.rs, in terms of its four slots.
use online_jam.Prelude.{
  ℕ, suc, ◌<◌, ◌≡◌, ◌≢◌, refl, ap, ◌∙◌, inl, inr, List, [], ◌∷◌, none, some, arith, Bool-cases,
  Option-cases, ◌==◌, bytes_eq, bytes_eq_iff, length, length-set,
}
use online_jam.Protocol.{protocol_version}
use online_jam.Protocol.Packet.Types.{Control, Hello, Welcome, DenyReason}
use online_jam.Protocol.Handshake.{SocketAddr}
use online_jam.Protocol.Handshake.Host.{
  SlotState, HostHandshake, HostAction, slot_at, position_addr, position_free, roster,
  broadcast_roster, welcome_for, welcomed, sender_id, admit, on_hello,
}
use online_jam.Protocol.Handshake.Host.Admit.{
  seated, IsWanted, on_hello-wanted, on_hello-retry, on_hello-seated,
}
use online_jam.Protocol.Handshake.Host.Distinct.{
  IsHost, Absent-slot_at, position_addr-some, position_addr-none, position_free-some,
}
use online_jam.Protocol.Handshake.Host.Seats.{
  each, each-each_from, seats, roster_of, to_all, IsStranger, IsFull, HasRoom,
  players_from-each_from, rosters-set, IsStranger-position_addr, position_free-first,
  position_free-full,
}

-- The WELCOME of the client in slot `k`.
abbrev pub welcome_of : HostHandshake → ℕ → Welcome
welcome_of h k = record {
  assigned_id = suc k;
  session_id = h.session_id;
  sample_rate = h.params.sample_rate;
  frame_samples = h.params.frame_samples;
  codec = h.params.codec;
  roster = roster_of h;
}

roster-roster_of : (h : HostHandshake) → length h.slots ≡ 4 → roster h ≡ roster_of h
unfolding roster
roster-roster_of h four =
    ap (λ ps. record { id = 0; name = h.host_name } ∷ ps)
      (players_from-each_from 0 h.slots (omega arith) ∙ each-each_from _ h.slots four)

sender_id-suc : (k : ℕ) → k < 4 → sender_id k ≡ suc k
unfolding sender_id
sender_id-suc k lt = omega arith

welcome_for-welcome_of :
    (h : HostHandshake) (k : ℕ)
    → length h.slots ≡ 4
    → k < 4
    → welcome_for h k ≡ Control.welcome (welcome_of h k)
unfolding welcome_for
welcome_for-welcome_of h k four lt =
    let id = sender_id-suc k lt in let players = roster-roster_of h four in cc

-- The first free slot is given to a stranger with a HELLO of this host's version and room: a host
-- with slot `k` free, and every slot before it taken, puts the client there, pending, and changes no
-- other slot. Three things follow in order. The client is sent a WELCOME with the id `k + 1`, the
-- session and its parameters, and a roster of the host and of the client in each taken slot, the new
-- one included. The join is reported under that id. And each other client, in the order of the
-- slots, is sent a ROSTER with the same players; the new one is not.
pub on_hello-newcomer :
    (h : HostHandshake) (a : SocketAddr) (c : Hello) (now k : ℕ)
    → IsHost h
    → IsWanted h c
    → IsStranger a h.slots
    → slot_at h.slots k ≡ none
    → k < 4
    → ((j : ℕ) → j < k → slot_at h.slots j ≢ none)
    → let h' = seated h k a c.name now in
      (on_hello h a (Control.hello c) now ≡ (
        h',
        HostAction.send a (Control.welcome (welcome_of h' k))
            ∷ HostAction.client_joined (suc k) c.name
            ∷ each (λ j s. HostAction.send s.addr (Control.roster (roster_of h'))) h.slots seats,
      ))
      × (slot_at h'.slots k
          ≡ some (record {
            addr = a;
            name = c.name;
            state = SlotState.pending none now 1;
            last_heard_ms = now;
          }))
      × ((j : ℕ) → k ≢ j → slot_at h'.slots j ≡ slot_at h.slots j)
unfolding seated broadcast_roster
on_hello-newcomer h a c now k v wanted far free lt taken =
    let four = v.four in
    let h' = seated h k a c.name now in
    let four' : length h'.slots ≡ 4 = length-set h.slots k _ ∙ four in
    let (answer, seat, others) =
      on_hello-seated h a c now k v wanted (IsStranger-position_addr 0 h.slots a far)
        (position_free-first 0 k h.slots free (omega arith) taken ∙ ap some (omega arith)) in
    let sent = welcome_for-welcome_of h' k four' lt in
    let id = sender_id-suc k lt in
    let players = roster-roster_of h' four' in
    let rest : broadcast_roster h' (some a) ≡ each (to_all (roster_of h')) h.slots seats =
      rosters-set 0 k h.slots (roster h') (welcomed a c.name now) far free (omega arith)
      ∙ each-each_from (to_all (roster h')) h.slots four
      ∙ ap (λ ps. each (to_all ps) h.slots seats) players in
    (
      answer
          ∙ ap
              (λ rs. (
                h',
                HostAction.send a (welcome_for h' k)
                    ∷ HostAction.client_joined (sender_id k) c.name
                    ∷ rs,
              ))
              rest
          ∙ ap
              (λ w. (
                h',
                HostAction.send a w
                    ∷ HostAction.client_joined (sender_id k) c.name
                    ∷ each (to_all (roster_of h')) h.slots seats,
              ))
              sent
          ∙ ap
              (λ i. (
                h',
                HostAction.send a (Control.welcome (welcome_of h' k))
                    ∷ HostAction.client_joined i c.name
                    ∷ each (to_all (roster_of h')) h.slots seats,
              ))
              id,
      seat,
      others,
    )

-- The host after a HELLO `c` from `a`, and its actions.
pub data Answer (h : HostHandshake) (a : SocketAddr) (c : Hello) (now : ℕ)
    : HostHandshake → List HostAction → Type 0 where
  other_version :
      c.proto_version ≢ protocol_version
      → Answer h a c now h (HostAction.send a (Control.deny DenyReason.version_mismatch) ∷ [])
  other_room :
      c.proto_version ≡ protocol_version
      → c.room_code ≢ h.room_code
      → Answer h a c now h (HostAction.send a (Control.deny DenyReason.bad_room_code) ∷ [])
  no_room :
      IsWanted h c
      → IsFull h.slots
      → IsStranger a h.slots
      → Answer h a c now h (HostAction.send a (Control.deny DenyReason.room_full) ∷ [])
  let_in :
      (k : ℕ) (h' : HostHandshake) (rest : List HostAction)
      → IsWanted h c
      → HasRoom a h.slots
      → k < 4
      → slot_at h'.slots k
        ≡ some (record {
          addr = a;
          name = c.name;
          state = SlotState.pending none now 1;
          last_heard_ms = now;
        })
      → Answer h a c now h' (HostAction.send a (Control.welcome (welcome_of h' k)) ∷ rest)

pair-Answer :
    (h : HostHandshake) (a : SocketAddr) (c : Hello) (now : ℕ) (r : HostHandshake × List HostAction)
    (h' : HostHandshake) (actions : List HostAction)
    → r ≡ (h', actions)
    → Answer h a c now h' actions
    → Answer h a c now r.0 r.1
pair-Answer h a c now r h' actions e answer = rw e answer

-- A HELLO that passes the two checks.
on_hello-Answer_wanted :
    (h : HostHandshake) (a : SocketAddr) (c : Hello) (now : ℕ)
    → IsHost h
    → IsWanted h c
    → Answer h a c now (on_hello h a (Control.hello c) now).0 (on_hello h a (Control.hello c) now).1
unfolding seated admit
on_hello-Answer_wanted h a c now v wanted =
    let four = v.four in
    let r = on_hello h a (Control.hello c) now in
    elim (Option-cases (position_addr a 0 h.slots)) [
      | inr (k, known) ↦
          let (i, at, s, found, same, lt) = position_addr-some h.slots a 0 k known in
          let (e, seat, others) = on_hello-retry h a c now k v wanted known in
          let h' = seated h k a c.name now in
          let sent = welcome_for-welcome_of h' k (length-set h.slots k _ ∙ four) (omega arith) in
          pair-Answer h a c now r h' (HostAction.send a (Control.welcome (welcome_of h' k)) ∷ [])
            (e ∙ ap (λ w. (h', HostAction.send a w ∷ [])) sent)
            (Answer.let_in k h' [] wanted (i, omega arith, inr (s, found, same)) (omega arith) seat)
      | inl unknown ↦
          let far = position_addr-none h.slots a 0 unknown in
          let stranger : IsStranger a h.slots =
            λ j s e. Absent-slot_at h.slots j {a = a} {s = s} far e in
          elim (Option-cases (position_free 0 h.slots)) [
            | inl full ↦
                pair-Answer h a c now r h
                  (HostAction.send a (Control.deny DenyReason.room_full) ∷ [])
                  (on_hello-wanted h a c now wanted ∙ rw (admit, unknown, full) refl)
                  (Answer.no_room wanted (λ j lt. position_free-full 0 h.slots full j (omega arith))
                    stranger)
            | inr (k, free) ↦
                let (i, at, found, lt) = position_free-some h.slots 0 k free in
                let (e, seat, others) = on_hello-seated h a c now k v wanted unknown free in
                let h' = seated h k a c.name now in
                let rest =
                  HostAction.client_joined (sender_id k) c.name ∷ broadcast_roster h' (some a) in
                let sent =
                  welcome_for-welcome_of h' k (length-set h.slots k _ ∙ four) (omega arith) in
                pair-Answer h a c now r h'
                  (HostAction.send a (Control.welcome (welcome_of h' k)) ∷ rest)
                  (e ∙ ap (λ w. (h', HostAction.send a w ∷ rest)) sent)
                  (Answer.let_in k h' rest wanted
                    (i, omega arith, inl (ap (λ o. elim o [ none ↦ none | some s ↦ s ]) found))
                    (omega arith) seat)
          ]
    ]

-- Every HELLO has one of four answers, each under a condition that excludes the others. It is
-- denied, with the host left as it is, for its version, if that is another than the host's; else for
-- its room code, if that is; else because the room is full, if and only if all four slots are taken
-- and none has its address. In every other case, when a slot is free or is the address's own, the
-- first thing sent is a WELCOME with the id of a slot that now holds the address and the name.
pub on_hello-Answer :
    (h : HostHandshake) (a : SocketAddr) (c : Hello) (now : ℕ)
    → IsHost h
    → Answer h a c now (on_hello h a (Control.hello c) now).0 (on_hello h a (Control.hello c) now).1
unfolding on_hello IsWanted
on_hello-Answer h a c now v = elim (Bool-cases (c.proto_version == protocol_version)) [
  | inr other ↦
      pair-Answer h a c now (on_hello h a (Control.hello c) now) h
        (HostAction.send a (Control.deny DenyReason.version_mismatch) ∷ [])
        (rw (on_hello, other) refl) (Answer.other_version (λ e. ground arith))
  | inl same ↦
      let version : c.proto_version ≡ protocol_version = ground arith in
      elim (Bool-cases (bytes_eq c.room_code h.room_code)) [
        | inr other ↦
            pair-Answer h a c now (on_hello h a (Control.hello c) now) h
              (HostAction.send a (Control.deny DenyReason.bad_room_code) ∷ [])
              (rw (on_hello, same, other) refl)
              (Answer.other_room version
                (λ e. ground (arith, (bytes_eq_iff c.room_code h.room_code).1 e)))
        | inl room ↦
            on_hello-Answer_wanted h a c now v
              (version, (bytes_eq_iff c.room_code h.room_code).0 room)
      ]
]
