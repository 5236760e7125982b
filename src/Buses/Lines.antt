-- ===== src/Buses/Lines.antt =====
-- The signal lines of the bus (cpp/buses/bus.h, PIN_BSY and so on) and the phase that they encode.
use piscsi.Common.{Bool, true, false, ◌||◌}
use piscsi.Scsi.{BusPhase}

pub record Lines : Type 0 where
  pub bsy : Bool
  pub sel : Bool
  pub req : Bool
  pub atn : Bool
  pub ack : Bool
  pub rst : Bool
  pub msg : Bool
  pub cd : Bool
  pub io : Bool

pub data Pin : Type 0 where
  bsy sel req atn ack rst msg cd io : Pin

abbrev pub no_lines : Lines
no_lines = record {
  bsy = false;
  sel = false;
  req = false;
  atn = false;
  ack = false;
  rst = false;
  msg = false;
  cd = false;
  io = false;
}

abbrev pub get_line : Pin → Lines → Bool
get_line Pin.bsy l = l.bsy
get_line Pin.sel l = l.sel
get_line Pin.req l = l.req
get_line Pin.atn l = l.atn
get_line Pin.ack l = l.ack
get_line Pin.rst l = l.rst
get_line Pin.msg l = l.msg
get_line Pin.cd l = l.cd
get_line Pin.io l = l.io

abbrev pub set_line : Pin → Bool → Lines → Lines
set_line Pin.bsy b l = record l { bsy = b }
set_line Pin.sel b l = record l { sel = b }
set_line Pin.req b l = record l { req = b }
set_line Pin.atn b l = record l { atn = b }
set_line Pin.ack b l = record l { ack = b }
set_line Pin.rst b l = record l { rst = b }
set_line Pin.msg b l = record l { msg = b }
set_line Pin.cd b l = record l { cd = b }
set_line Pin.io b l = record l { io = b }

-- A line is asserted if either side asserts it.
abbrev pub join_lines : Lines → Lines → Lines
join_lines a b = record {
  bsy = a.bsy || b.bsy;
  sel = a.sel || b.sel;
  req = a.req || b.req;
  atn = a.atn || b.atn;
  ack = a.ack || b.ack;
  rst = a.rst || b.rst;
  msg = a.msg || b.msg;
  cd = a.cd || b.cd;
  io = a.io || b.io;
}

-- `Bus::phases`, the table by MSG, C/D and I/O.
abbrev pub phases : Bool → Bool → Bool → BusPhase
phases false false false = BusPhase.data_out
phases false false true = BusPhase.data_in
phases false true false = BusPhase.command
phases false true true = BusPhase.status
phases true false false = BusPhase.reserved
phases true false true = BusPhase.reserved
phases true true false = BusPhase.msg_out
phases true true true = BusPhase.msg_in
