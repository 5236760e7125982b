-- ===== src/Buses/Bus/Handshake.antt =====
-- The byte-wise hand-shakes of cpp/buses/bus.cpp. Each loop returns the bytes that it has moved,
-- or written to the buffer, beside the count that the source returns.
use piscsi.Common.{
  ℕ, zero, suc, ◌+◌, ◌-◌, Bool, true, false, List, [], ◌∷◌, if◌then◌else◌, not, ◌==◌, ◌&&◌, ℤ, pos,
  negsuc, set,
}
use piscsi.Scsi.{BusPhase}
use piscsi.Buses.Lines.{Pin}
use piscsi.Shared.CommandMetaData.{get_byte_count}
use piscsi.Buses.Bus.Signals.{Bus, set_signal, get_dat, set_dat, wait_signal, get_phase}

abbrev pub same_phase : BusPhase → BusPhase → Bool
same_phase BusPhase.data_out BusPhase.data_out = true
same_phase BusPhase.data_in BusPhase.data_in = true
same_phase BusPhase.command BusPhase.command = true
same_phase BusPhase.status BusPhase.status = true
same_phase BusPhase.msg_out BusPhase.msg_out = true
same_phase BusPhase.msg_in BusPhase.msg_in = true
same_phase BusPhase.reserved BusPhase.reserved = true
same_phase BusPhase.selection BusPhase.selection = true
same_phase BusPhase.bus_free BusPhase.bus_free = true
same_phase BusPhase.arbitration BusPhase.arbitration = true
same_phase BusPhase.reselection BusPhase.reselection = true
same_phase _ _ = false

-- One byte from the initiator: REQ, wait for ACK, read the byte, drop REQ, wait for ACK to drop.
-- The byte is read, and stored by the callers, also if ACK has not come.
unfoldable pub request_byte : Bus → Bool × ℕ × Bus
request_byte b =
    let (ack, b1) = wait_signal Pin.ack true (set_signal Pin.req true b) in
    let b2 = set_signal Pin.req false b1 in
    let (dropped, b3) = wait_signal Pin.ack false b2 in
    if not ack then (false, get_dat b1, b2) else (dropped, get_dat b1, b3)

-- `ReceiveHandShake` of a target: the count of complete bytes, and all bytes stored.
unfoldable pub receive_target : ℕ → Bus → ℕ × List ℕ × Bus
receive_target zero b = (0, [], b)
receive_target (suc n) b =
    let (good, byte, b1) = request_byte b in
    let (k, bytes, b2) = receive_target n b1 in
    if not good then (0, byte ∷ [], b1) else (k + 1, byte ∷ bytes, b2)

-- `ReceiveHandShake` of an initiator, in the phase in which it began.
unfoldable pub receive_initiator : ℕ → BusPhase → Bus → ℕ × List ℕ × Bus
receive_initiator zero phase b = (0, [], b)
receive_initiator (suc n) phase b =
    let (req, b1) = wait_signal Pin.req true b in
    let (now, b2) = get_phase b1 in
    let byte = get_dat b2 in
    let (dropped, b3) = wait_signal Pin.req false (set_signal Pin.ack true b2) in
    let b4 = set_signal Pin.ack false b3 in
    let (after, b5) = get_phase b4 in
    let (k, bytes, b6) = receive_initiator n phase b5 in
    if not req
    then (0, [], b1)
    else if not (same_phase now phase)
    then (0, [], b2)
    else if not dropped
    then (0, byte ∷ [], b4)
    else if not (same_phase after phase)
    then (0, byte ∷ [], b5)
    else (k + 1, byte ∷ bytes, b6)

unfoldable pub receive_hand_shake : ℕ → Bus → ℕ × List ℕ × Bus
receive_hand_shake count b =
    let (phase, b') = get_phase b in
    if b.target_mode then receive_target count b else receive_initiator count phase b'

-- `SendHandShake` of a target: the bytes of the buffer that the initiator has taken.
unfoldable pub send_target : List ℕ → Bus → List ℕ × Bus
send_target [] b = let (_, b') = wait_signal Pin.ack false b in ([], b')
send_target (byte ∷ bytes) b =
    let (free, b1) = wait_signal Pin.ack false (set_dat byte b) in
    let (ack, b2) = wait_signal Pin.ack true (set_signal Pin.req true b1) in
    let b3 = set_signal Pin.req false b2 in
    let (sent, b4) = send_target bytes b3 in
    let (_, b1') = wait_signal Pin.ack false b1 in
    let (_, b3') = wait_signal Pin.ack false b3 in
    if not free then ([], b1') else if not ack then ([], b3') else (byte ∷ sent, b4)

-- `SendHandShake` of an initiator. ATN drops before the last byte of a MESSAGE OUT phase.
unfoldable pub send_initiator : List ℕ → BusPhase → Bus → List ℕ × Bus
send_initiator [] phase b = ([], b)
send_initiator (byte ∷ bytes) phase b =
    let (req, b1) = wait_signal Pin.req true (set_dat byte b) in
    let last : Bool = elim bytes [ [] ↦ true | _ ↦ false ] in
    let b2 =
      if same_phase phase BusPhase.msg_out && last then set_signal Pin.atn false b1 else b1 in
    let (now, b3) = get_phase b2 in
    let (dropped, b4) = wait_signal Pin.req false (set_signal Pin.ack true b3) in
    let b5 = set_signal Pin.ack false b4 in
    let (after, b6) = get_phase b5 in
    let (sent, b7) = send_initiator bytes phase b6 in
    if not req
    then ([], b1)
    else if not (same_phase now phase)
    then ([], b3)
    else if not dropped
    then ([], b5)
    else if not (same_phase after phase)
    then ([], b6)
    else (byte ∷ sent, b7)

unfoldable pub send_hand_shake : List ℕ → Bus → List ℕ × Bus
send_hand_shake bytes b =
    let (phase, b') = get_phase b in
    if b.target_mode then send_target bytes b else send_initiator bytes phase b'

-- `MsgInHandShake` of an initiator: the message byte, or -1.
unfoldable pub msg_in_hand_shake : Bus → ℤ × Bus
msg_in_hand_shake b =
    let (phase, b1) = get_phase b in
    let (req, b2) = wait_signal Pin.req true b1 in
    let (now, b3) = get_phase b2 in
    let msg = get_dat b3 in
    let b4 = set_signal Pin.ack true b3 in
    let b5 = if msg == 0 then b4 else set_signal Pin.atn true b4 in
    let (_, b6) = wait_signal Pin.req false b5 in
    if not req
    then (negsuc 0, b2)
    else if not (same_phase now phase)
    then (negsuc 0, b3)
    else (pos msg, set_signal Pin.ack false b6)

-- The rest of a CDB whose length is known, from index `i` on.
unfoldable pub receive_cdb : ℕ → ℕ → List ℕ → Bus → Bool × List ℕ × Bus
receive_cdb zero i buf b = (true, buf, b)
receive_cdb (suc n) i buf b =
    let (good, byte, b1) = request_byte b in
    let rest = receive_cdb n (i + 1) (set buf i byte) b1 in
    if not good then (false, set buf i byte, b1) else rest

-- `CommandHandShake` once the operation code is in the buffer.
unfoldable pub command_rest : ℕ → List ℕ → Bus → ℤ × List ℕ × Bus
command_rest opcode buf b =
    let count = get_byte_count opcode in
    let (good, buf', b') = receive_cdb (count - 1) 1 buf b in
    if count == 0
    then (pos 0, buf, b)
    else if not good
    then (negsuc 0, buf', b')
    else (pos count, buf', b')

-- `CommandHandShake`: -1 after a timeout, 0 for an unknown command, or the count of bytes. ICD
-- semantics: a leading $1F announces the operation code.
unfoldable pub command_hand_shake : List ℕ → Bus → ℤ × List ℕ × Bus
command_hand_shake buf b =
    let (good, first, b1) = request_byte b in
    let (good', second, b2) = request_byte b1 in
    let buf1 = set buf 0 first in
    let buf2 = set buf1 0 second in
    if not good
    then (negsuc 0, buf1, b1)
    else if first == 0x1f
    then (if not good' then (negsuc 0, buf2, b2) else command_rest second buf2 b2)
    else command_rest first buf1 b1
