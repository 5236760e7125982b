-- ===== src/Buses/Bus/Laws.antt =====
-- What the hand-shakes of cpp/buses/bus.cpp guarantee a target: the lines that it drives, and what
-- a full transfer means.
use piscsi.Common.{
  ℕ, zero, suc, ◌+◌, ◌-◌, ◌≡◌, refl, Bool, true, false, List, [], ◌∷◌, arith, set, Bool-cases, inl,
  inr,
}
use piscsi.Shared.CommandMetaData.{get_byte_count}
use piscsi.Buses.Lines.{Pin}
use piscsi.Buses.Bus.Signals.{
  Bus, Sample, wait_for, wait_signal, set_signal, set_dat, read_sample, acquire,
}
use piscsi.Buses.Bus.Handshake.{
  request_byte, receive_target, send_target, receive_hand_shake, send_hand_shake, receive_cdb,
  command_rest, command_hand_shake,
}

-- The mode and all lines that the target drives, but for REQ.
pub record KeepsLines (b c : Bus) : Type 0 where
  pub mode : c.target_mode ≡ b.target_mode
  pub bsy : c.driven.bsy ≡ b.driven.bsy
  pub sel : c.driven.sel ≡ b.driven.sel
  pub msg : c.driven.msg ≡ b.driven.msg
  pub cd : c.driven.cd ≡ b.driven.cd
  pub io : c.driven.io ≡ b.driven.io
  pub atn : c.driven.atn ≡ b.driven.atn
  pub ack : c.driven.ack ≡ b.driven.ack
  pub rst : c.driven.rst ≡ b.driven.rst

-- Waiting drives nothing.
pub wait_for-driven :
    (ss : List Sample) (p : Pin) (v : Bool) (b : Bus)
    → ((wait_for ss p v b).1.driven ≡ b.driven)
      × ((wait_for ss p v b).1.target_mode ≡ b.target_mode)
unfolding wait_for
wait_for-driven [] p v b = (refl, refl)
wait_for-driven (s ∷ ss) p v b = ground (arith, wait_for-driven ss p v (read_sample s ss b))

pub wait_signal-driven :
    (p : Pin) (v : Bool) (b : Bus)
    → ((wait_signal p v b).1.driven ≡ b.driven)
      × ((wait_signal p v b).1.target_mode ≡ b.target_mode)
unfolding wait_signal
wait_signal-driven p v b = wait_for-driven b.schedule p v b

pub acquire-driven :
    (b : Bus) → ((acquire b).driven ≡ b.driven) × ((acquire b).target_mode ≡ b.target_mode)
unfolding acquire
acquire-driven b = ground arith

-- A request for a byte ends with REQ released, and changes no other line of the target.
pub request_byte-keeps :
    (b : Bus) → KeepsLines b (request_byte b).2 × ((request_byte b).2.driven.req ≡ false)
unfolding request_byte
request_byte-keeps b = grind (arith, wait_signal-driven)

-- What every hand-shake of a target leaves behind, if REQ was free before it.
abbrev pub Releases : Bus → Bus → Type 0
Releases b c = KeepsLines b c × (c.driven.req ≡ false)

Releases-trans : {b c d : Bus} → Releases b c → Releases c d → Releases b d
Releases-trans (p, e) (q, f) = ground arith

pub receive_target-Releases :
    (n : ℕ) (b : Bus) → b.driven.req ≡ false → Releases b (receive_target n b).2
unfolding receive_target
receive_target-Releases zero b h = ground arith
receive_target-Releases (suc n) b h =
    let step = request_byte-keeps b in
    let rest = receive_target-Releases n (request_byte b).2 step.1 in
    elim (Bool-cases (request_byte b).0) [
      | inl good ↦ rw (good, receive_target) (Releases-trans step rest)
      | inr bad ↦ rw (bad, receive_target) step
    ]

wait_signal-Releases :
    (p : Pin) (v : Bool) (b : Bus) → b.driven.req ≡ false → Releases b (wait_signal p v b).1
wait_signal-Releases p v b h = grind (arith, wait_signal-driven)

set_dat-Releases : (x : ℕ) (b : Bus) → b.driven.req ≡ false → Releases b (set_dat x b)
set_dat-Releases x b h = ground arith

-- The pulse of REQ for one byte that is sent.
request_pulse-Releases :
    (b : Bus)
    → Releases b (set_signal Pin.req false (wait_signal Pin.ack true (set_signal Pin.req true b)).1)
request_pulse-Releases b = grind (arith, wait_signal-driven)

pub send_target-Releases :
    (bytes : List ℕ) (b : Bus) → b.driven.req ≡ false → Releases b (send_target bytes b).1
unfolding send_target
send_target-Releases [] b h = wait_signal-Releases Pin.ack false b h
send_target-Releases (x ∷ xs) b h =
    let b1 = (wait_signal Pin.ack false (set_dat x b)).1 in
    let r1 : Releases b b1 =
      Releases-trans {c = set_dat x b} (set_dat-Releases x b h)
        (wait_signal-Releases Pin.ack false (set_dat x b) h) in
    let pulse = wait_signal Pin.ack true (set_signal Pin.req true b1) in
    let b3 = set_signal Pin.req false pulse.1 in
    let r3 : Releases b b3 = Releases-trans r1 (request_pulse-Releases b1) in
    elim (Bool-cases (wait_signal Pin.ack false (set_dat x b)).0) [
      | inr busy ↦
          rw (busy, send_target) (Releases-trans r1 (wait_signal-Releases Pin.ack false b1 r1.1))
      | inl free ↦ elim (Bool-cases pulse.0) [
        | inl ack ↦
            rw (free, send_target)
              (rw (ack, send_target) (Releases-trans r3 (send_target-Releases xs b3 r3.1)))
        | inr missing ↦
            rw (free, send_target)
              (rw (missing, send_target)
                (Releases-trans r3 (wait_signal-Releases Pin.ack false b3 r3.1)))
      ]
    ]

receive_cdb-Releases :
    (n i : ℕ) (buf : List ℕ) (b : Bus) → b.driven.req ≡ false → Releases b (receive_cdb n i buf b).2
unfolding receive_cdb
receive_cdb-Releases zero i buf b h = ground arith
receive_cdb-Releases (suc n) i buf b h =
    let step = request_byte-keeps b in
    let rest =
      receive_cdb-Releases n (i + 1) (set buf i (request_byte b).1) (request_byte b).2 step.1 in
    elim (Bool-cases (request_byte b).0) [
      | inl good ↦ rw (good, receive_cdb) (Releases-trans step rest)
      | inr bad ↦ rw (bad, receive_cdb) step
    ]

command_rest-Releases :
    (cmd : ℕ) (buf : List ℕ) (b : Bus)
    → b.driven.req ≡ false
    → Releases b (command_rest cmd buf b).2
unfolding command_rest
command_rest-Releases cmd buf b h =
    ground (arith, receive_cdb-Releases (get_byte_count cmd - 1) 1 buf b h)

-- A target leaves the command hand-shake with REQ released, and with its mode and all other lines that
-- it drives unchanged, whatever the initiator does, also after a time-out.
pub command_hand_shake-Releases : (buf : List ℕ) (b : Bus) → Releases b (command_hand_shake buf b).2
unfolding command_hand_shake
command_hand_shake-Releases buf b =
    let r1 = request_byte-keeps b in
    let b1 = (request_byte b).2 in
    let r2 = Releases-trans r1 (request_byte-keeps b1) in
    let b2 = (request_byte b1).2 in
    let first = (request_byte b).1 in
    let second = (request_byte b1).1 in
    let buf1 = set buf 0 first in
    ground (
      arith,
      r1,
      r2,
      Releases-trans r1 (command_rest-Releases first buf1 b1 r1.1),
      Releases-trans r2 (command_rest-Releases second (set buf1 0 second) b2 r2.1),
    )

-- A target with REQ released leaves a hand-shake for incoming bytes with REQ released, and with its
-- mode and all other lines that it drives unchanged, whatever the initiator does.
pub receive_hand_shake-Releases :
    (n : ℕ) (b : Bus)
    → b.target_mode ≡ true
    → b.driven.req ≡ false
    → Releases b (receive_hand_shake n b).2
unfolding receive_hand_shake
receive_hand_shake-Releases n b t h = simp t (receive_target-Releases n b h)

-- A target with REQ released leaves a hand-shake for outgoing bytes with REQ released, and with its
-- mode and all other lines that it drives unchanged, whatever the initiator does.
pub send_hand_shake-Releases :
    (bytes : List ℕ) (b : Bus)
    → b.target_mode ≡ true
    → b.driven.req ≡ false
    → Releases b (send_hand_shake bytes b).1
unfolding send_hand_shake
send_hand_shake-Releases bytes b t h = simp t (send_target-Releases bytes b h)
