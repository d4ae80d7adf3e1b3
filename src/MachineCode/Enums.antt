-- ===== src/MachineCode/Enums.antt =====
-- tools/assembly/instruction.py: the values of the enumerations, as the machine code has them.
use tia_infrastructure.Prelude.{ℕ}
use tia_infrastructure.Isa.{
  Op, SourceType, DestinationType, nop, mov, add, sub, sl, asr, lsr, eq, ne, sgt, ugt, slt, ult,
  sge, uge, sle, ule, band, bnand, bor, bnor, bxor, bxnor, land, lnand, lor, lnor, lxor, lxnor, gby,
  sby, cby, mby, gb, sb, cb, mb, clz, ctz, halt, lsw, ssw, rlw, olw, sw, lmul, shmul, uhmul, mac,
  itf, utf, fti, ftu, feq, fne, fgt, flt, fle, fge, fadd, fsub, fmul, fmac, null, immediate,
  channel, register, predicate,
}

abbrev pub op_value : Op → ℕ
op_value nop = 0
op_value mov = 1
op_value add = 2
op_value sub = 3
op_value sl = 4
op_value asr = 5
op_value lsr = 6
op_value eq = 7
op_value ne = 8
op_value sgt = 9
op_value ugt = 10
op_value slt = 11
op_value ult = 12
op_value sge = 13
op_value uge = 14
op_value sle = 15
op_value ule = 16
op_value band = 17
op_value bnand = 18
op_value bor = 19
op_value bnor = 20
op_value bxor = 21
op_value bxnor = 22
op_value land = 23
op_value lnand = 24
op_value lor = 25
op_value lnor = 26
op_value lxor = 27
op_value lxnor = 28
op_value gby = 29
op_value sby = 30
op_value cby = 31
op_value mby = 32
op_value gb = 33
op_value sb = 34
op_value cb = 35
op_value mb = 36
op_value clz = 37
op_value ctz = 38
op_value halt = 39
op_value lsw = 40
op_value ssw = 41
op_value rlw = 42
op_value olw = 43
op_value sw = 44
op_value lmul = 45
op_value shmul = 46
op_value uhmul = 47
op_value mac = 48
op_value itf = 49
op_value utf = 50
op_value fti = 51
op_value ftu = 52
op_value feq = 53
op_value fne = 54
op_value fgt = 55
op_value flt = 56
op_value fle = 57
op_value fge = 58
op_value fadd = 59
op_value fsub = 60
op_value fmul = 61
op_value fmac = 62

abbrev pub source_type_value : SourceType → ℕ
source_type_value null = 0
source_type_value immediate = 1
source_type_value channel = 2
source_type_value register = 3

abbrev pub destination_type_value : DestinationType → ℕ
destination_type_value null = 0
destination_type_value channel = 1
destination_type_value register = 2
destination_type_value predicate = 3
