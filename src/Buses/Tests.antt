-- ===== src/Buses/Tests.antt =====
-- Runs of the code under cpp/buses.
use piscsi.Common.{ℕ, refl, true, List, [], ◌∷◌, ◌++◌}
use piscsi.Buses.Lines.{no_lines}
use piscsi.Buses.Bus.Signals.{Bus, Sample}
use piscsi.Buses.Bus.Handshake.{command_hand_shake}
use piscsi.Buses.Bus.Transfers.{offer, Expects}
use piscsi.Buses.Bus.Laws.{Releases, command_hand_shake-Releases}

abbrev target_with : List Sample → Bus
target_with ss = record {
  target_mode = true;
  driven = record no_lines { bsy = true; cd = true };
  signals = no_lines;
  dat = 0;
  schedule = ss;
}

abbrev empty_buffer : List ℕ
empty_buffer = 0 ∷ 0 ∷ 0 ∷ 0 ∷ 0 ∷ 0 ∷ 0 ∷ 0 ∷ []

-- TEST UNIT READY, and REQUEST SENSE with 18 bytes
abbrev request_sense_cdb : List ℕ
request_sense_cdb = 3 ∷ 0 ∷ 0 ∷ 0 ∷ 18 ∷ 0 ∷ []

abbrev offered : (bytes : List ℕ) → Expects (target_with (offer bytes ++ [])) (offer bytes ++ [])
offered bytes = record { no_ack = refl; next = refl }

command_hand_shake-Releases_example :
    Releases
      (target_with (offer request_sense_cdb))
      (command_hand_shake empty_buffer (target_with (offer request_sense_cdb))).2
command_hand_shake-Releases_example =
    command_hand_shake-Releases empty_buffer (target_with (offer request_sense_cdb))
