-- ===== src/Core/Cpu/Decode.antt =====
-- The encoding of the instructions, and the dispatch table of src/core/src/cpu_ops.c against it.
use ms.Base.{
  ℕ, ◌+◌, ◌-◌, ◌*◌, ◌/◌, ◌%◌, ◌<◌, ◌≡◌, refl, sym, ap, ◌∙◌, Bool, true, ◌&&◌, ◌||◌, List, [], ◌∷◌,
  get_or, ◌==◌, leb, ltb, if◌then◌else◌, arith, all_below, all_below_sound, ==→eq, Bool-cases, inl,
  inr, ltb→lt, ltb_false→le, ◌≤◌,
}
use ms.Core.Cpu.Table.{
  Handler, Range, Table, reg_range, fill, ranges, init_dispatch_table, do_unknown, do_halt, do_wait,
  do_rti, do_bpt, do_iot, do_reset, do_rtt, do_mfpt, do_nop, do_ccc, do_scc, do_rts, do_jmp,
  do_swab, do_clr, do_clrb, do_com, do_comb, do_inc, do_incb, do_dec, do_decb, do_neg, do_negb,
  do_adc, do_adcb, do_sbc, do_sbcb, do_tst, do_tstb, do_ror, do_rorb, do_rol, do_rolb, do_asr,
  do_asrb, do_asl, do_aslb, do_sxt, do_mtps, do_mfps, do_mov, do_movb, do_cmp, do_cmpb, do_bit,
  do_bitb, do_bic, do_bicb, do_bis, do_bisb, do_add, do_sub, do_xor, do_jsr, do_sob, do_br, do_bne,
  do_beq, do_bge, do_blt, do_bgt, do_ble, do_bpl, do_bmi, do_bhi, do_blos, do_bvc, do_bvs, do_bhis,
  do_blo, do_emt, do_trap,
}

-- The encoding by the fields of the opcode: bit 15 is for bytes (or for SUB), then three bits for a
-- double-operand instruction, and, where those are 0 or 7, the six bits below.
abbrev pub double_words : List Handler
double_words = do_mov ∷ do_cmp ∷ do_bit ∷ do_bic ∷ do_bis ∷ do_add ∷ []

abbrev pub double_bytes : List Handler
double_bytes = do_movb ∷ do_cmpb ∷ do_bitb ∷ do_bicb ∷ do_bisb ∷ do_sub ∷ []

abbrev pub single_words : List Handler
single_words =
    do_clr ∷ do_com ∷ do_inc ∷ do_dec ∷ do_neg ∷ do_adc ∷ do_sbc ∷ do_tst ∷ do_ror ∷ do_rol ∷ do_asr
    ∷ do_asl ∷ do_unknown ∷ do_unknown ∷ do_unknown ∷ do_sxt ∷ []

abbrev pub single_bytes : List Handler
single_bytes =
    do_clrb ∷ do_comb ∷ do_incb ∷ do_decb ∷ do_negb ∷ do_adcb ∷ do_sbcb ∷ do_tstb ∷ do_rorb
    ∷ do_rolb ∷ do_asrb ∷ do_aslb ∷ do_mtps ∷ do_unknown ∷ do_unknown ∷ do_mfps ∷ []

-- By the condition, three bits of it; bit 15 is the fourth.
abbrev pub branches_low : List Handler
branches_low = do_unknown ∷ do_br ∷ do_bne ∷ do_beq ∷ do_bge ∷ do_blt ∷ do_bgt ∷ do_ble ∷ []

abbrev pub branches_high : List Handler
branches_high = do_bpl ∷ do_bmi ∷ do_bhi ∷ do_blos ∷ do_bvc ∷ do_bvs ∷ do_bhis ∷ do_blo ∷ []

-- An opcode above the lowest 256, by its upper ten bits.
abbrev pub decode_block : ℕ → Handler
decode_block b =
    let byte = leb 512 b in
    let double = b / 64 % 8 in
    let middle = b % 64 in
    if double == 7
    then if byte
      then do_unknown
      else if middle / 8 == 4
      then do_xor
      else if middle / 8 == 7
      then do_sob
      else do_unknown
    else if leb 1 double
    then get_or (if byte then double_bytes else double_words) (double - 1) do_unknown
    else if ltb middle 32
    then get_or (if byte then branches_high else branches_low) (middle / 4) do_unknown
    else if ltb middle 40
    then if byte then (if ltb middle 36 then do_emt else do_trap) else do_jsr
    else if ltb middle 56
    then get_or (if byte then single_bytes else single_words) (middle - 40) do_unknown
    else do_unknown

-- The lowest 256 opcodes.
abbrev pub decode_low : ℕ → Handler
decode_low op =
    if ltb op 64
    then get_or (do_halt ∷ do_wait ∷ do_rti ∷ do_bpt ∷ do_iot ∷ do_reset ∷ do_rtt ∷ do_mfpt ∷ []) op
        do_unknown
    else if ltb op 128
    then do_jmp
    else if leb 192 op
    then do_swab
    else if ltb op 136
    then do_rts
    else if ltb op 160
    then do_unknown
    else if op % 16 == 0
    then do_nop
    else if ltb op 176
    then do_ccc
    else do_scc

abbrev pub decode : ℕ → Handler
decode op = if ltb op 256 then decode_low op else decode_block (op / 64)

-- Handlers as numbers, to compare them.
code : Handler → ℕ
code do_unknown = 0
code do_halt = 1
code do_wait = 2
code do_rti = 3
code do_bpt = 4
code do_iot = 5
code do_reset = 6
code do_rtt = 7
code do_mfpt = 8
code do_nop = 9
code do_ccc = 10
code do_scc = 11
code do_rts = 12
code do_jmp = 13
code do_swab = 14
code do_clr = 15
code do_clrb = 16
code do_com = 17
code do_comb = 18
code do_inc = 19
code do_incb = 20
code do_dec = 21
code do_decb = 22
code do_neg = 23
code do_negb = 24
code do_adc = 25
code do_adcb = 26
code do_sbc = 27
code do_sbcb = 28
code do_tst = 29
code do_tstb = 30
code do_ror = 31
code do_rorb = 32
code do_rol = 33
code do_rolb = 34
code do_asr = 35
code do_asrb = 36
code do_asl = 37
code do_aslb = 38
code do_sxt = 39
code do_mtps = 40
code do_mfps = 41
code do_mov = 42
code do_movb = 43
code do_cmp = 44
code do_cmpb = 45
code do_bit = 46
code do_bitb = 47
code do_bic = 48
code do_bicb = 49
code do_bis = 50
code do_bisb = 51
code do_add = 52
code do_sub = 53
code do_xor = 54
code do_jsr = 55
code do_sob = 56
code do_br = 57
code do_bne = 58
code do_beq = 59
code do_bge = 60
code do_blt = 61
code do_bgt = 62
code do_ble = 63
code do_bpl = 64
code do_bmi = 65
code do_bhi = 66
code do_blos = 67
code do_bvc = 68
code do_bvs = 69
code do_bhis = 70
code do_blo = 71
code do_emt = 72
code do_trap = 73

abbrev handlers : List Handler
handlers =
    do_unknown ∷ do_halt ∷ do_wait ∷ do_rti ∷ do_bpt ∷ do_iot ∷ do_reset ∷ do_rtt ∷ do_mfpt ∷ do_nop
    ∷ do_ccc ∷ do_scc ∷ do_rts ∷ do_jmp ∷ do_swab ∷ do_clr ∷ do_clrb ∷ do_com ∷ do_comb ∷ do_inc
    ∷ do_incb ∷ do_dec ∷ do_decb ∷ do_neg ∷ do_negb ∷ do_adc ∷ do_adcb ∷ do_sbc ∷ do_sbcb ∷ do_tst
    ∷ do_tstb ∷ do_ror ∷ do_rorb ∷ do_rol ∷ do_rolb ∷ do_asr ∷ do_asrb ∷ do_asl ∷ do_aslb ∷ do_sxt
    ∷ do_mtps ∷ do_mfps ∷ do_mov ∷ do_movb ∷ do_cmp ∷ do_cmpb ∷ do_bit ∷ do_bitb ∷ do_bic ∷ do_bicb
    ∷ do_bis ∷ do_bisb ∷ do_add ∷ do_sub ∷ do_xor ∷ do_jsr ∷ do_sob ∷ do_br ∷ do_bne ∷ do_beq
    ∷ do_bge ∷ do_blt ∷ do_bgt ∷ do_ble ∷ do_bpl ∷ do_bmi ∷ do_bhi ∷ do_blos ∷ do_bvc ∷ do_bvs
    ∷ do_bhis ∷ do_blo ∷ do_emt ∷ do_trap ∷ []

of_code : (h : Handler) → get_or handlers (code h) do_unknown ≡ h
unfolding code
of_code do_unknown = refl
of_code do_halt = refl
of_code do_wait = refl
of_code do_rti = refl
of_code do_bpt = refl
of_code do_iot = refl
of_code do_reset = refl
of_code do_rtt = refl
of_code do_mfpt = refl
of_code do_nop = refl
of_code do_ccc = refl
of_code do_scc = refl
of_code do_rts = refl
of_code do_jmp = refl
of_code do_swab = refl
of_code do_clr = refl
of_code do_clrb = refl
of_code do_com = refl
of_code do_comb = refl
of_code do_inc = refl
of_code do_incb = refl
of_code do_dec = refl
of_code do_decb = refl
of_code do_neg = refl
of_code do_negb = refl
of_code do_adc = refl
of_code do_adcb = refl
of_code do_sbc = refl
of_code do_sbcb = refl
of_code do_tst = refl
of_code do_tstb = refl
of_code do_ror = refl
of_code do_rorb = refl
of_code do_rol = refl
of_code do_rolb = refl
of_code do_asr = refl
of_code do_asrb = refl
of_code do_asl = refl
of_code do_aslb = refl
of_code do_sxt = refl
of_code do_mtps = refl
of_code do_mfps = refl
of_code do_mov = refl
of_code do_movb = refl
of_code do_cmp = refl
of_code do_cmpb = refl
of_code do_bit = refl
of_code do_bitb = refl
of_code do_bic = refl
of_code do_bicb = refl
of_code do_bis = refl
of_code do_bisb = refl
of_code do_add = refl
of_code do_sub = refl
of_code do_xor = refl
of_code do_jsr = refl
of_code do_sob = refl
of_code do_br = refl
of_code do_bne = refl
of_code do_beq = refl
of_code do_bge = refl
of_code do_blt = refl
of_code do_bgt = refl
of_code do_ble = refl
of_code do_bpl = refl
of_code do_bmi = refl
of_code do_bhi = refl
of_code do_blos = refl
of_code do_bvc = refl
of_code do_bvs = refl
of_code do_bhis = refl
of_code do_blo = refl
of_code do_emt = refl
of_code do_trap = refl

code-eq : (g h : Handler) → (code g == code h) ≡ true → g ≡ h
code-eq g h e =
    sym (of_code g) ∙ ap (λ n. get_or handlers n do_unknown) (==→eq (code g) (code h) e) ∙ of_code h

-- A range of whole blocks of 64 opcodes, or one among the lowest 256.
abbrev settled : Range → Bool
settled e = (e.start % 64 == 0 && (e.last + 1) % 64 == 0) || ltb e.last 256

abbrev all_settled : List Range → Bool
all_settled [] = true
all_settled (e ∷ es) = settled e && all_settled es

and_true : (b c : Bool) → (b && c) ≡ true → (b ≡ true) × (c ≡ true)
and_true b c h = ground arith

reg_range-block :
    (t u : Table) (e : Range) (i : ℕ)
    → 256 ≤ i
    → settled e ≡ true
    → t i ≡ u (i / 64 * 64)
    → reg_range t e i ≡ reg_range u e (i / 64 * 64)
unfolding reg_range
reg_range-block t u e i lt w h =
    let same : (leb e.start i && leb i e.last)
        ≡ (leb e.start (i / 64 * 64) && leb (i / 64 * 64) e.last) =
      ground arith in
    ap (λ b. if b then e.handler else t i) same
    ∙ ap (λ x. if leb e.start (i / 64 * 64) && leb (i / 64 * 64) e.last then e.handler else x) h

fill-block :
    (es : List Range) (t u : Table) (i : ℕ)
    → 256 ≤ i
    → all_settled es ≡ true
    → t i ≡ u (i / 64 * 64)
    → fill t es i ≡ fill u es (i / 64 * 64)
unfolding fill
fill-block [] t u i lt w h = h
fill-block (e ∷ es) t u i lt w h =
    let (we, ws) = and_true (settled e) (all_settled es) w in
    fill-block es (reg_range t e) (reg_range u e) i lt ws (reg_range-block t u e i lt we h)

blocks_agree :
    all_below 1024 (λ b. leb b 3 || code (init_dispatch_table (b * 64)) == code (decode_block b))
    ≡ true
unfolding code init_dispatch_table fill reg_range
blocks_agree = refl

low_agree : all_below 256 (λ i. code (init_dispatch_table i) == code (decode_low i)) ≡ true
unfolding code init_dispatch_table fill reg_range
low_agree = refl

init_dispatch_table-block :
    (op : ℕ) → 256 ≤ op → init_dispatch_table op ≡ init_dispatch_table (op / 64 * 64)
unfolding init_dispatch_table
init_dispatch_table-block op h =
    fill-block ranges (λ _. do_unknown) (λ _. do_unknown) op h refl refl

agree_at : (b : ℕ) → 3 < b → b < 1024 → init_dispatch_table (b * 64) ≡ decode_block b
agree_at b h lt =
    let e =
      all_below_sound 1024
        (λ b. leb b 3 || code (init_dispatch_table (b * 64)) == code (decode_block b)) b
        blocks_agree lt in
    code-eq (init_dispatch_table (b * 64)) (decode_block b) (ground (arith, e))

-- Every one of the 65,536 entries of the dispatch table is the handler of the instruction that the fields
-- of the opcode spell; opcodes that spell none have the handler of a reserved instruction.
pub init_dispatch_table-decode : (op : ℕ) → op < 65536 → init_dispatch_table op ≡ decode op
init_dispatch_table-decode op lt = elim (Bool-cases (ltb op 256)) [
  | inl e ↦ rw e (
      code-eq (init_dispatch_table op) (decode_low op) (
        all_below_sound 256 (λ i. code (init_dispatch_table i) == code (decode_low i)) op low_agree
          (ltb→lt op 256 e)))
  | inr e ↦
      let le = ltb_false→le op 256 e in
      rw e (init_dispatch_table-block op le ∙ agree_at (op / 64) (omega arith) (omega arith))
]
