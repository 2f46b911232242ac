-- ===== src/Protocol/Packet/Parse/Total.antt =====
-- Parsing never panics: no index is out of range and no subtraction goes below zero.
use online_jam.Prelude.{
  ℕ, zero, suc, ◌+◌, ◌/◌, ◌^◌, ◌≤◌, ◌≡◌, ◌≢◌, refl, subst, inl, inr, Bool, true, false, [], arith,
  ltb, leb, ◌==◌, leb→le, Bytes, length, Bool-cases,
}
use online_jam.Protocol.{magic, protocol_version}
use online_jam.Protocol.Packet.Outcome.{
  Outcome, ok, err, panic, ParseError, truncated, bad_magic, bad_version, trailing_bytes,
  out_of_range, ◌>>=◌, ◌>>◌, ensure,
}
use online_jam.Protocol.Packet.Endian.{from_be}
use online_jam.Protocol.Packet.Parse.{be_at, header, redundancy, audio, payload, datagram}
use online_jam.Protocol.Packet.Parse.Body.{fields, whole, control}
use online_jam.Protocol.Packet.Reader
use online_jam.Protocol.Packet.Reader.{
  Reader, Get, lift, return, slice, bytes, u8, u16, u32, u64, limited, checked, string, each_player,
  counted, players, finish,
}
use online_jam.Protocol.Packet.Types.{PacketType, Control, ptype_from, codec_from, deny_from}

abbrev IsSafe {ℓ} : {A : Type ℓ} → Outcome A → Type 0
IsSafe (ok a) = Unit
IsSafe (err e) = Unit
IsSafe panic = ⊥

record NoPanic {ℓ} {A : Type ℓ} (o : Outcome A) : Type 0 where
  safe : IsSafe o

ok-NoPanic {ℓ} : {A : Type ℓ} (a : A) → NoPanic (ok a)
ok-NoPanic a = record { safe = tt }

err-NoPanic {ℓ} : {A : Type ℓ} (e : ParseError) → NoPanic {A = A} (err e)
err-NoPanic e = record { safe = tt }

bind-NoPanic {ℓ κ} :
    {A : Type ℓ} {B : Type κ} (m : Outcome A) (f : A → Outcome B)
    → NoPanic m
    → ((a : A) → NoPanic (f a))
    → NoPanic (m >>= f)
bind-NoPanic (ok a) f h k = k a
bind-NoPanic (err e) f h k = err-NoPanic e
bind-NoPanic panic f h k = absurd h.safe

ensure-NoPanic {ℓ} :
    {B : Type ℓ} (test : Bool) (e : ParseError) (k : Outcome B)
    → (test ≡ true → NoPanic k)
    → NoPanic (ensure test e >> k)
ensure-NoPanic true e k h = h refl
ensure-NoPanic false e k h = err-NoPanic e

slice-NoPanic : (bs : Bytes) (from to : ℕ) → from ≤ to → to ≤ length bs → NoPanic (slice bs from to)
unfolding slice
slice-NoPanic bs from to h h' = record { safe = ground arith }

be_at-NoPanic : (k : ℕ) (bs : Bytes) (at : ℕ) → at + k ≤ length bs → NoPanic (be_at k bs at)
unfolding be_at
be_at-NoPanic k bs at h =
    bind-NoPanic (slice bs at (at + k)) _ (slice-NoPanic bs at (at + k) (omega arith) h)
      (λ b. ok-NoPanic _)

ptype_from-NoPanic : (v : ℕ) → NoPanic (ptype_from v)
unfolding ptype_from
ptype_from-NoPanic v = record { safe = ground arith }

codec_from-NoPanic : (v : ℕ) → NoPanic (codec_from v)
unfolding codec_from
codec_from-NoPanic v = record { safe = ground arith }

deny_from-NoPanic : (v : ℕ) → NoPanic (deny_from v)
unfolding deny_from
deny_from-NoPanic v = record { safe = ground arith }

header-NoPanic : (bs : Bytes) → NoPanic (header bs)
unfolding header
header-NoPanic bs = ensure-NoPanic (leb 8 (length bs)) truncated _ λ long.
    let room = leb→le 8 (length bs) long in
    bind-NoPanic _ _ (be_at-NoPanic 1 bs 0 (omega arith)) λ m.
      ensure-NoPanic (m == magic) bad_magic _ λ _.
        bind-NoPanic _ _ (be_at-NoPanic 1 bs 1 (omega arith)) λ b.
          ensure-NoPanic (b / 2 ^ 4 == protocol_version) (bad_version (b / 2 ^ 4)) _ λ _.
            bind-NoPanic _ _ (ptype_from-NoPanic _) λ ptype.
              bind-NoPanic _ _ (be_at-NoPanic 2 bs 2 (omega arith)) λ session.
                bind-NoPanic _ _ (be_at-NoPanic 2 bs 4 (omega arith)) λ sender.
                  bind-NoPanic _ _ (be_at-NoPanic 2 bs 6 (omega arith)) λ seq.
                    bind-NoPanic _ _ (slice-NoPanic bs 8 (length bs) room (omega arith))
                      λ rest. ok-NoPanic _

redundancy-NoPanic : (flag : Bool) (tail : Bytes) → NoPanic (redundancy flag tail)
unfolding redundancy
redundancy-NoPanic false tail = ok-NoPanic _
redundancy-NoPanic true tail = ensure-NoPanic _ _ _ λ long.
    let room = leb→le 2 (length tail) long in
    bind-NoPanic _ _ (be_at-NoPanic 2 tail 0 (omega arith)) λ rlen.
      bind-NoPanic _ _ (slice-NoPanic tail 2 (length tail) room (omega arith)) λ tail0.
        ensure-NoPanic _ _ _ λ fits.
          let room' = leb→le rlen (length tail0) fits in
          bind-NoPanic _ _ (slice-NoPanic tail0 0 rlen (omega arith) room') λ red.
            bind-NoPanic _ _ (slice-NoPanic tail0 rlen (length tail0) room' (omega arith))
              λ tail1. ok-NoPanic _

audio-NoPanic : (bs : Bytes) → NoPanic (audio bs)
unfolding audio
audio-NoPanic bs = ensure-NoPanic _ _ _ λ long.
    let room = leb→le 8 (length bs) long in
    bind-NoPanic _ _ (be_at-NoPanic 4 bs 0 (omega arith)) λ time.
      bind-NoPanic _ _ (be_at-NoPanic 1 bs 4 (omega arith)) λ code.
        bind-NoPanic _ _ (codec_from-NoPanic code) λ codec.
          bind-NoPanic _ _ (be_at-NoPanic 1 bs 5 (omega arith)) λ flags.
            bind-NoPanic _ _ (be_at-NoPanic 2 bs 6 (omega arith)) λ plen.
              bind-NoPanic _ _ (slice-NoPanic bs 8 (length bs) room (omega arith)) λ rest.
                ensure-NoPanic _ _ _ λ fits.
                  let room' = leb→le plen (length rest) fits in
                  bind-NoPanic _ _ (slice-NoPanic rest 0 plen (omega arith) room') λ body.
                    bind-NoPanic _ _ (slice-NoPanic rest plen (length rest) room' (omega arith))
                      λ tail. bind-NoPanic _ _ (redundancy-NoPanic _ tail) λ parts.
                        ensure-NoPanic (length parts.1 == 0) trailing_bytes _ λ _. ok-NoPanic _

-- A cursor method neither panics nor moves past the end.
abbrev Within {ℓ} : {A : Type ℓ} → Outcome (A × Reader) → Type 0
Within (ok (a, r)) = r.pos ≤ length r.buf
Within (err e) = Unit
Within panic = ⊥

record Never {ℓ} {A : Type ℓ} (m : Get A) : Type ℓ where
  run : (r : Reader) → r.pos ≤ length r.buf → Within (m r)

after_step {ℓ κ} :
    {A : Type ℓ} {B : Type κ} (o : Outcome (A × Reader)) (f : A → Get B)
    → Within o
    → ((a : A) → Never (f a))
    → Within (elim o [ ok (a, r') ↦ f a r' | err e ↦ err e | panic ↦ panic ])
after_step (ok (a, r)) f h k = (k a).run r h
after_step (err e) f h k = tt
after_step panic f h k = h

bind-Never {ℓ κ} :
    {A : Type ℓ} {B : Type κ} (m : Get A) (f : A → Get B)
    → Never m
    → ((a : A) → Never (f a))
    → Never (Reader.◌>>=◌ m f)
bind-Never m f n k = record { run = λ r h. after_step (m r) f (n.run r h) k }

return-Never {ℓ} : {A : Type ℓ} (a : A) → Never (return a)
return-Never a = record { run = λ r h. h }

lift_within {ℓ} :
    {A : Type ℓ} (o : Outcome A) (r : Reader) → NoPanic o → r.pos ≤ length r.buf → Within (lift o r)
lift_within (ok a) r h h' = h'
lift_within (err e) r h h' = tt
lift_within panic r h h' = h.safe

lift-Never {ℓ} : {A : Type ℓ} (o : Outcome A) → NoPanic o → Never (lift o)
lift-Never o h = record { run = λ r h'. lift_within o r h h' }

bytes-Never : (n : ℕ) → Never (bytes n)
unfolding bytes slice
bytes-Never n = record { run = λ r h. ground arith }

number-Never : (k : ℕ) → Never (Reader.◌>>=◌ (bytes k) (λ b. return (from_be b)))
number-Never k = bind-Never (bytes k) _ (bytes-Never k) (λ b. return-Never _)

u8-Never : Never u8
unfolding u8
u8-Never = number-Never 1

u16-Never : Never u16
unfolding u16
u16-Never = number-Never 2

u32-Never : Never u32
unfolding u32
u32-Never = number-Never 4

u64-Never : Never u64
unfolding u64
u64-Never = number-Never 8

string-Never : Never string
unfolding string limited checked
string-Never =
    bind-Never _ _ u8-Never
      λ n. bind-Never _ _ (limit n) λ s. lift-Never _ (record { safe = ground arith })
  where
    limit : (n : ℕ) → Never (limited n)
    limit n = elim (Bool-cases (ltb 32 n)) [
      | inl long ↦ rw (long, limited) (lift-Never _ (err-NoPanic out_of_range))
      | inr short ↦ rw (short, limited) (bytes-Never n)
    ]

each_player-Never : (n : ℕ) → Never (each_player n)
unfolding each_player
each_player-Never zero = return-Never []
each_player-Never (suc n) = bind-Never _ _ u16-Never λ id.
    bind-Never _ _ string-Never λ name. bind-Never _ _ (each_player-Never n) λ ps. return-Never _

players-Never : Never players
unfolding players counted
players-Never = bind-Never _ _ u8-Never count
  where
    count : (n : ℕ) → Never (counted n)
    count n = elim (Bool-cases (ltb 5 n)) [
      | inl long ↦ rw (long, counted) (lift-Never _ (err-NoPanic out_of_range))
      | inr short ↦ rw (short, counted) (each_player-Never n)
    ]

finish-Never : Never finish
unfolding finish
finish-Never = record { run = λ r h. ground arith }

fields-Never : (ptype : PacketType) → Never (fields ptype)
unfolding fields
fields-Never PacketType.audio = lift-Never _ (err-NoPanic _)
fields-Never PacketType.hello = bind-Never _ _ u8-Never λ version.
    bind-Never _ _ (bytes-Never 6) λ code.
      bind-Never _ _ string-Never
        λ name. bind-Never _ _ u8-Never λ codecs. bind-Never _ _ u8-Never λ frames. return-Never _
fields-Never PacketType.welcome = bind-Never _ _ u16-Never λ assigned.
    bind-Never _ _ u16-Never λ session. bind-Never _ _ u32-Never λ rate.
      bind-Never _ _ u16-Never λ frame. bind-Never _ _ u8-Never λ code.
        bind-Never _ _ (lift-Never _ (codec_from-NoPanic code))
          λ codec. bind-Never _ _ players-Never λ roster. return-Never _
fields-Never PacketType.deny =
    bind-Never _ _ u8-Never
      λ code. bind-Never _ _ (lift-Never _ (deny_from-NoPanic code)) λ reason. return-Never _
fields-Never PacketType.ping = bind-Never _ _ u64-Never λ t1. return-Never _
fields-Never PacketType.pong =
    bind-Never _ _ u64-Never
      λ t1. bind-Never _ _ u64-Never λ t2. bind-Never _ _ u64-Never λ t3. return-Never _
fields-Never PacketType.keepalive = return-Never _
fields-Never PacketType.roster = bind-Never _ _ players-Never λ ps. return-Never _
fields-Never PacketType.bye = return-Never _
fields-Never PacketType.ack =
    bind-Never _ _ u16-Never λ seq. bind-Never _ _ u8-Never λ type. return-Never _

whole-Never : (ptype : PacketType) → Never (whole ptype)
unfolding whole
whole-Never ptype =
    bind-Never _ _ (fields-Never ptype) λ c. bind-Never _ _ finish-Never λ _. return-Never _

control-NoPanic : (ptype : PacketType) (bs : Bytes) → NoPanic (control ptype bs)
unfolding control
control-NoPanic ptype bs =
    forget (whole ptype _) ((whole-Never ptype).run (record { buf = bs; pos = 0 }) (omega arith))
  where
    forget :
        (o : Outcome (Control × Reader))
        → Within o
        → NoPanic (elim o [ ok (c, r) ↦ ok c | err e ↦ err e | panic ↦ panic ])
    forget (ok (c, r)) h = ok-NoPanic c
    forget (err e) h = err-NoPanic e
    forget panic h = absurd h

payload-NoPanic : (ptype : PacketType) (bs : Bytes) → NoPanic (payload ptype bs)
unfolding payload
payload-NoPanic PacketType.audio bs = bind-NoPanic _ _ (audio-NoPanic bs) (λ p. ok-NoPanic _)
payload-NoPanic _ bs = bind-NoPanic _ _ (control-NoPanic _ bs) (λ c. ok-NoPanic _)

datagram-NoPanic : (bs : Bytes) → NoPanic (datagram bs)
unfolding datagram
datagram-NoPanic bs =
    bind-NoPanic _ _ (header-NoPanic bs)
      λ hb. bind-NoPanic _ _ (payload-NoPanic hb.0.ptype hb.1) λ p. ok-NoPanic _

-- `parse_datagram` never panics, whatever the datagram.
pub datagram-ne-panic : (bs : Bytes) → datagram bs ≢ panic
datagram-ne-panic bs e = (subst NoPanic e (datagram-NoPanic bs)).safe
