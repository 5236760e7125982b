-- ===== src/Buses/Bus/Transfers.antt =====
-- What the hand-shakes of cpp/buses/bus.cpp transfer: between a target and an initiator that answers
-- each REQ, and the bytes that count as sent.
use piscsi.Common.{
  ℕ, ◌+◌, ◌≡◌, Bool, true, false, List, [], ◌∷◌, if◌then◌else◌, length, set, write_at, ◌==◌, pos,
  negsuc, ℤ, not,
}
use piscsi.Buses.Lines.{Pin, no_lines}
use piscsi.Buses.Bus.Signals.{Bus, Sample, wait_signal, set_signal, get_dat, read_sample}
use piscsi.Buses.Bus.Handshake.{request_byte, receive_target, receive_cdb, command_rest}

-- What the initiator drives while it answers a REQ with a byte, and after REQ has been released.
abbrev pub with_ack : ℕ → Sample
with_ack byte = record { lines = record no_lines { ack = true }; dat = byte; late = false }

abbrev pub without_ack : Sample
without_ack = record { lines = no_lines; dat = 0; late = false }

-- The schedule of an initiator that answers each REQ with the next byte.
abbrev pub offer : List ℕ → List Sample
offer [] = []
offer (x ∷ xs) = with_ack x ∷ without_ack ∷ offer xs

-- The target does not drive ACK, and this is what comes next.
pub record Expects (b : Bus) (schedule : List Sample) : Type 0 where
  pub no_ack : b.driven.ack ≡ false
  pub next : b.schedule ≡ schedule

-- `request_byte` after the first wait.
abbrev after_wait : Bool × Bus → Bool × ℕ × Bus
after_wait (ack, b1) =
    let b2 = set_signal Pin.req false b1 in
    let (dropped, b3) = wait_signal Pin.ack false b2 in
    if not ack then (false, get_dat b1, b2) else (dropped, get_dat b1, b3)

abbrev after_pulse : ℕ → Bool × Bus → Bool × ℕ × Bus
after_pulse byte (dropped, b) = (dropped, byte, b)

-- The bus after a byte of the schedule has been taken.
abbrev taken : ℕ → List Sample → Bus → Bus
taken byte rest b = read_sample without_ack rest (
    set_signal Pin.req false
      (read_sample (with_ack byte) (without_ack ∷ rest) (set_signal Pin.req true b)))

-- `receive_target` after the first byte.
abbrev after_byte : ℕ → Bool × ℕ × Bus → ℕ × List ℕ × Bus
after_byte n (good, byte, b1) =
    let (k, bytes, b2) = receive_target n b1 in
    if not good then (0, byte ∷ [], b1) else (k + 1, byte ∷ bytes, b2)

-- `receive_cdb` after a byte.
abbrev after_cdb_byte : ℕ → ℕ → List ℕ → Bool × ℕ × Bus → Bool × List ℕ × Bus
after_cdb_byte n i buf (good, byte, b1) =
    let rest = receive_cdb n (i + 1) (set buf i byte) b1 in
    if not good then (false, set buf i byte, b1) else rest

-- `command_hand_shake` after the first byte, and after the one behind $1F.
abbrev after_first : List ℕ → Bool × ℕ × Bus → ℤ × List ℕ × Bus
after_first buf (good, first, b1) =
    let (good', second, b2) = request_byte b1 in
    let buf1 = set buf 0 first in
    let buf2 = set buf1 0 second in
    if not good
    then (negsuc 0, buf1, b1)
    else if first == 0x1f
    then (if not good' then (negsuc 0, buf2, b2) else command_rest second buf2 b2)
    else command_rest first buf1 b1

-- `command_hand_shake` after the byte behind $1F.
abbrev after_escape : List ℕ → Bool × ℕ × Bus → ℤ × List ℕ × Bus
after_escape buf1 (good', second, b2) =
    let buf2 = set buf1 0 second in
    if not good' then (negsuc 0, buf2, b2) else command_rest second buf2 b2

-- What a command hand-shake gives when the initiator offers a CDB.
abbrev Accepts : List ℕ → List ℕ → List Sample → ℤ × List ℕ × Bus → Type 0
Accepts cdb buf rest r = (r.0 ≡ pos (length cdb)) × (r.1 ≡ write_at buf 0 cdb) × Expects r.2 rest
