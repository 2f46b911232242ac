-- ===== src/Session/Tests.antt =====
-- Runs of solo and mute at concrete inputs.
use online_jam.Prelude.{ℕ, ◌≡◌, refl, true, false, [], ◌∷◌}
use online_jam.Session.{HostShared, new_stream, any_solo, any_from, solo_counts, in_mix}
use online_jam.Session.Solo.{IsAudible, in_mix-IsAudible}

-- Client 1 is there; a solo is set on the empty slot of client 3.
abbrev room : HostShared
room = record {
  session_id = 7;
  clients = record new_stream { active = true } ∷ new_stream ∷ new_stream ∷ new_stream ∷ [];
  muted = false ∷ false ∷ false ∷ false ∷ false ∷ [];
  soloed = false ∷ false ∷ false ∷ true ∷ false ∷ [];
}

test_stranded : any_solo room ≡ false
unfolding any_solo any_from solo_counts new_stream
test_stranded = refl

in_mix-IsAudible_example : (q : ℕ) × (in_mix room q (any_solo room) ≡ true) × IsAudible room q
in_mix-IsAudible_example = in_mix-IsAudible room 1 (refl, refl)
