-- ===== src/Core/Cpu/Table.antt =====
-- The dispatch table of src/core/src/cpu_ops.c. A pointer to a handler is its name, a `Handler`.
use ms.Base.{ℕ, ◌&&◌, leb, if◌then◌else◌, List, [], ◌∷◌}
use ms.Core.Cpu.{Bus, Action}
use ms.Core.Cpu.Branch.{
  op_br, op_bne, op_beq, op_bpl, op_bmi, op_bvc, op_bvs, op_bge, op_blt, op_bgt, op_ble, op_bhi,
  op_blos, op_bhis, op_blo, op_sob,
}
use ms.Core.Cpu.Control.{
  op_unknown, op_nop, op_halt, op_wait, op_reset, op_rti, op_rtt, op_bpt, op_iot, op_emt, op_trap,
  op_mfpt, op_jmp, op_jsr, op_rts, op_ccc, op_scc,
}
use ms.Core.Cpu.DoubleByte.{op_movb, op_cmpb, op_bitb, op_bicb, op_bisb}
use ms.Core.Cpu.DoubleWord.{op_mov, op_cmp, op_bit, op_bic, op_bis, op_add, op_sub, op_xor}
use ms.Core.Cpu.ShiftByte.{op_asrb, op_aslb, op_rorb, op_rolb}
use ms.Core.Cpu.ShiftWord.{op_asr, op_asl, op_ror, op_rol}
use ms.Core.Cpu.SingleByte.{op_clrb, op_comb, op_incb, op_decb, op_negb, op_tstb, op_adcb, op_sbcb}
use ms.Core.Cpu.SingleWord.{op_clr, op_com, op_inc, op_dec, op_neg, op_tst, op_adc, op_sbc}
use ms.Core.Cpu.Special.{op_sxt, op_swab, op_mtps, op_mfps}

-- `cpu_op_handler_t`
pub data Handler : Type 0 where
  do_unknown : Handler
  do_halt do_wait do_rti do_bpt do_iot do_reset do_rtt do_mfpt : Handler
  do_nop do_ccc do_scc do_rts do_jmp do_swab do_clr do_clrb : Handler
  do_com do_comb do_inc do_incb do_dec do_decb do_neg do_negb : Handler
  do_adc do_adcb do_sbc do_sbcb do_tst do_tstb do_ror do_rorb : Handler
  do_rol do_rolb do_asr do_asrb do_asl do_aslb do_sxt do_mtps : Handler
  do_mfps do_mov do_movb do_cmp do_cmpb do_bit do_bitb do_bic : Handler
  do_bicb do_bis do_bisb do_add do_sub do_xor do_jsr do_sob : Handler
  do_br do_bne do_beq do_bge do_blt do_bgt do_ble do_bpl : Handler
  do_bmi do_bhi do_blos do_bvc do_bvs do_bhis do_blo do_emt : Handler
  do_trap : Handler

-- One entry of the table, or a range of them, ends included.
pub record Range : Type 0 where
  pub start : ℕ
  pub last : ℕ
  pub handler : Handler

abbrev pub range : ℕ → ℕ → Handler → Range
range a b h = record { start = a; last = b; handler = h }

abbrev pub Table : Type 0
Table = ℕ → Handler

-- `reg_range`
unfoldable pub reg_range : Table → Range → Table
reg_range table e i = if leb e.start i && leb i e.last then e.handler else table i

unfoldable pub fill : Table → List Range → Table
fill table [] = table
fill table (e ∷ es) = fill (reg_range table e) es

-- The assignments of `cpu_ops_init_dispatch_table`, in order.
abbrev pub ranges : List Range
ranges =
    range 0 0 do_halt
    ∷ range 0o1 0o1 do_wait
    ∷ range 0o2 0o2 do_rti
    ∷ range 0o3 0o3 do_bpt
    ∷ range 0o4 0o4 do_iot
    ∷ range 0o5 0o5 do_reset
    ∷ range 0o6 0o6 do_rtt
    ∷ range 0o7 0o7 do_mfpt
    ∷ range 0o240 0o240 do_nop
    ∷ range 0o241 0o257 do_ccc
    ∷ range 0o260 0o260 do_nop
    ∷ range 0o261 0o277 do_scc
    ∷ range 0o200 0o207 do_rts
    ∷ range 0o100 0o177 do_jmp
    ∷ range 0o300 0o377 do_swab
    ∷ range 0o5000 0o5077 do_clr
    ∷ range 0o105000 0o105077 do_clrb
    ∷ range 0o5100 0o5177 do_com
    ∷ range 0o105100 0o105177 do_comb
    ∷ range 0o5200 0o5277 do_inc
    ∷ range 0o105200 0o105277 do_incb
    ∷ range 0o5300 0o5377 do_dec
    ∷ range 0o105300 0o105377 do_decb
    ∷ range 0o5400 0o5477 do_neg
    ∷ range 0o105400 0o105477 do_negb
    ∷ range 0o5500 0o5577 do_adc
    ∷ range 0o105500 0o105577 do_adcb
    ∷ range 0o5600 0o5677 do_sbc
    ∷ range 0o105600 0o105677 do_sbcb
    ∷ range 0o5700 0o5777 do_tst
    ∷ range 0o105700 0o105777 do_tstb
    ∷ range 0o6000 0o6077 do_ror
    ∷ range 0o106000 0o106077 do_rorb
    ∷ range 0o6100 0o6177 do_rol
    ∷ range 0o106100 0o106177 do_rolb
    ∷ range 0o6200 0o6277 do_asr
    ∷ range 0o106200 0o106277 do_asrb
    ∷ range 0o6300 0o6377 do_asl
    ∷ range 0o106300 0o106377 do_aslb
    ∷ range 0o6700 0o6777 do_sxt
    ∷ range 0o106400 0o106477 do_mtps
    ∷ range 0o106700 0o106777 do_mfps
    ∷ range 0o10000 0o17777 do_mov
    ∷ range 0o110000 0o117777 do_movb
    ∷ range 0o20000 0o27777 do_cmp
    ∷ range 0o120000 0o127777 do_cmpb
    ∷ range 0o30000 0o37777 do_bit
    ∷ range 0o130000 0o137777 do_bitb
    ∷ range 0o40000 0o47777 do_bic
    ∷ range 0o140000 0o147777 do_bicb
    ∷ range 0o50000 0o57777 do_bis
    ∷ range 0o150000 0o157777 do_bisb
    ∷ range 0o60000 0o67777 do_add
    ∷ range 0o160000 0o167777 do_sub
    ∷ range 0o74000 0o74777 do_xor
    ∷ range 0o4000 0o4777 do_jsr
    ∷ range 0o77000 0o77777 do_sob
    ∷ range 0o400 0o777 do_br
    ∷ range 0o1000 0o1377 do_bne
    ∷ range 0o1400 0o1777 do_beq
    ∷ range 0o2000 0o2377 do_bge
    ∷ range 0o2400 0o2777 do_blt
    ∷ range 0o3000 0o3377 do_bgt
    ∷ range 0o3400 0o3777 do_ble
    ∷ range 0o100000 0o100377 do_bpl
    ∷ range 0o100400 0o100777 do_bmi
    ∷ range 0o101000 0o101377 do_bhi
    ∷ range 0o101400 0o101777 do_blos
    ∷ range 0o102000 0o102377 do_bvc
    ∷ range 0o102400 0o102777 do_bvs
    ∷ range 0o103000 0o103377 do_bhis
    ∷ range 0o103400 0o103777 do_blo
    ∷ range 0o104000 0o104377 do_emt
    ∷ range 0o104400 0o104777 do_trap
    ∷ []

unfoldable pub init_dispatch_table : Table
init_dispatch_table = fill (λ _. do_unknown) ranges

-- The call through a table's entry.
module _ {B : Type 0} ⦃bus : Bus B⦄ where
  unfoldable pub dispatch : Handler → Action B (Unit {0})
  dispatch do_unknown = op_unknown
  dispatch do_halt = op_halt
  dispatch do_wait = op_wait
  dispatch do_rti = op_rti
  dispatch do_bpt = op_bpt
  dispatch do_iot = op_iot
  dispatch do_reset = op_reset
  dispatch do_rtt = op_rtt
  dispatch do_mfpt = op_mfpt
  dispatch do_nop = op_nop
  dispatch do_ccc = op_ccc
  dispatch do_scc = op_scc
  dispatch do_rts = op_rts
  dispatch do_jmp = op_jmp
  dispatch do_swab = op_swab
  dispatch do_clr = op_clr
  dispatch do_clrb = op_clrb
  dispatch do_com = op_com
  dispatch do_comb = op_comb
  dispatch do_inc = op_inc
  dispatch do_incb = op_incb
  dispatch do_dec = op_dec
  dispatch do_decb = op_decb
  dispatch do_neg = op_neg
  dispatch do_negb = op_negb
  dispatch do_adc = op_adc
  dispatch do_adcb = op_adcb
  dispatch do_sbc = op_sbc
  dispatch do_sbcb = op_sbcb
  dispatch do_tst = op_tst
  dispatch do_tstb = op_tstb
  dispatch do_ror = op_ror
  dispatch do_rorb = op_rorb
  dispatch do_rol = op_rol
  dispatch do_rolb = op_rolb
  dispatch do_asr = op_asr
  dispatch do_asrb = op_asrb
  dispatch do_asl = op_asl
  dispatch do_aslb = op_aslb
  dispatch do_sxt = op_sxt
  dispatch do_mtps = op_mtps
  dispatch do_mfps = op_mfps
  dispatch do_mov = op_mov
  dispatch do_movb = op_movb
  dispatch do_cmp = op_cmp
  dispatch do_cmpb = op_cmpb
  dispatch do_bit = op_bit
  dispatch do_bitb = op_bitb
  dispatch do_bic = op_bic
  dispatch do_bicb = op_bicb
  dispatch do_bis = op_bis
  dispatch do_bisb = op_bisb
  dispatch do_add = op_add
  dispatch do_sub = op_sub
  dispatch do_xor = op_xor
  dispatch do_jsr = op_jsr
  dispatch do_sob = op_sob
  dispatch do_br = op_br
  dispatch do_bne = op_bne
  dispatch do_beq = op_beq
  dispatch do_bge = op_bge
  dispatch do_blt = op_blt
  dispatch do_bgt = op_bgt
  dispatch do_ble = op_ble
  dispatch do_bpl = op_bpl
  dispatch do_bmi = op_bmi
  dispatch do_bhi = op_bhi
  dispatch do_blos = op_blos
  dispatch do_bvc = op_bvc
  dispatch do_bvs = op_bvs
  dispatch do_bhis = op_bhis
  dispatch do_blo = op_blo
  dispatch do_emt = op_emt
  dispatch do_trap = op_trap
