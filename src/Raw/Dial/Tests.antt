-- ===== src/Raw/Dial/Tests.antt =====
-- DialWithDialer at concrete inputs.
use noisecat.Base.{◌≡◌, ◌≤◌, ◌<◌, refl, arith, true, false, [], ◌∷◌, length}
use noisecat.Raw.Dial.Race.{
  Report, Race, shaking, times_out, returned, receiving, armed, capacity, ends_badly, Reach, here,
  next, steps, Forced, HasReturned, connects, fires, receives,
}
use noisecat.Raw.Dial.Race.Returns.{Told, race-IsSound, race_returns}

-- The timer fires during the handshake.
abbrev dialled : Race
dialled = record armed { caller = receiving; worker = shaking }

abbrev late : Race
late = record dialled { has_fired = true; ch = times_out ∷ [] }

abbrev gave_up : Race
gave_up = record late { caller = returned times_out; ch = []; is_closed = true }

abbrev to_late : Reach armed late
to_late = next (next here (connects armed refl)) (fires dialled refl (omega arith))

abbrev to_end : Reach armed gave_up
to_end = next to_late (receives times_out [] late refl refl)

race-IsSound_example :
    (gave_up.has_fired ≡ false → length gave_up.ch < capacity)
    × (gave_up.worker ≡ shaking → length gave_up.ch < capacity)
    × ((r : Report)
        → gave_up.caller ≡ returned r
        → Told gave_up.worker gave_up.has_fired r × (gave_up.is_closed ≡ ends_badly r))
race-IsSound_example = race-IsSound to_end

race_returns_example : ((t : Race) × Forced late t × HasReturned t.caller) × (steps to_late ≤ 4)
race_returns_example = race_returns to_late
