-- ===== src/Core/Cpu/Compare.antt =====
-- CMP followed by a conditional branch, src/core/src/cpu_ops.c: the branch's name is the relation of
-- the operands.
use ms.Base.{
  ℕ, ◌+◌, ◌-◌, ◌%◌, ◌<◌, ◌≡◌, refl, ap, ◌∙◌, Bool, not, ◌||◌, ◌==◌, ltb, differ, arith, signed,
  fits, ◌-ℤ◌, ltb_ℤ,
}
use ms.Core.Cpu.{Cpu, Bus, ◌>>◌, modify}
use ms.Core.Cpu.Address.{microcycle, dst_mode, dst_reg, read_word_op}
use ms.Core.Cpu.Registers.{
  Registers, word_operands-Registers, word_operands-fits, read_word_op-fits,
}
use ms.Core.Cpu.Psw.{Flags, flags, mk, flags-with_flags}
use ms.Core.Cpu.DoubleWord.{word_operands, op_cmp}
use ms.Core.Cpu.Handbook.{compare}
use ms.Core.Cpu.Binary.{test-word}
use ms.Core.Cpu.Branch.{
  apply_branch, op_blt, op_ble, op_bgt, op_bge, op_blo, op_blos, op_bhi, op_bhis, op_beq, op_bne,
}
use ms.Core.Cpu.Table.{
  dispatch, do_blt, do_ble, do_bgt, do_bge, do_blo, do_blos, do_bhi, do_bhis, do_beq, do_bne,
  Handler,
}

-- The conditional branches by their names: less and greater are signed, lower and higher unsigned.
pub data Condition : Type 0 where
  equal not_equal : Condition
  less less_equal greater greater_equal : Condition
  lower lower_same higher higher_same : Condition

abbrev pub holds : Condition → ℕ → ℕ → Bool
holds equal s d = s == d
holds not_equal s d = not (s == d)
holds less s d = ltb_ℤ (signed 32768 s) (signed 32768 d)
holds less_equal s d = not (ltb_ℤ (signed 32768 d) (signed 32768 s))
holds greater s d = ltb_ℤ (signed 32768 d) (signed 32768 s)
holds greater_equal s d = not (ltb_ℤ (signed 32768 s) (signed 32768 d))
holds lower s d = ltb s d
holds lower_same s d = not (ltb d s)
holds higher s d = ltb d s
holds higher_same s d = not (ltb s d)

abbrev pub branch_handler : Condition → Handler
branch_handler equal = do_beq
branch_handler not_equal = do_bne
branch_handler less = do_blt
branch_handler less_equal = do_ble
branch_handler greater = do_bgt
branch_handler greater_equal = do_bge
branch_handler lower = do_blo
branch_handler lower_same = do_blos
branch_handler higher = do_bhi
branch_handler higher_same = do_bhis

-- What the branches compute of the flags.
abbrev taken : Condition → Flags → Bool
taken equal f = f.z
taken not_equal f = not f.z
taken less f = differ f.n f.v
taken less_equal f = f.z || differ f.n f.v
taken greater f = not (f.z || differ f.n f.v)
taken greater_equal f = not (differ f.n f.v)
taken lower f = f.c
taken lower_same f = f.c || f.z
taken higher f = not (f.c || f.z)
taken higher_same f = not f.c

abbrev compared : ℕ → ℕ → Flags
compared s d =
    mk (not (ltb ((s + 65536 - d) % 65536) 32768)) ((s + 65536 - d) % 65536 == 0)
      (not (fits 32768 (signed 32768 s -ℤ signed 32768 d))) (ltb s d)

-- Signed order is N against V, zero is equality.
signed_order :
    (s d : ℕ)
    → s < 65536
    → d < 65536
    → differ (compared s d).n (compared s d).v ≡ ltb_ℤ (signed 32768 s) (signed 32768 d)
signed_order s d hs hd = ground arith

zero_order : (s d : ℕ) → s < 65536 → d < 65536 → (compared s d).z ≡ (s == d)
zero_order s d hs hd = ground arith

taken-compared :
    (o : Condition) (s d : ℕ) → s < 65536 → d < 65536 → taken o (compared s d) ≡ holds o s d
taken-compared equal s d hs hd = zero_order s d hs hd
taken-compared not_equal s d hs hd = ap not (zero_order s d hs hd)
taken-compared less s d hs hd = signed_order s d hs hd
taken-compared less_equal s d hs hd =
    rw (signed_order s d hs hd) (rw (zero_order s d hs hd) (ground arith))
taken-compared greater s d hs hd =
    rw (signed_order s d hs hd) (rw (zero_order s d hs hd) (ground arith))
taken-compared greater_equal s d hs hd = ap not (signed_order s d hs hd)
taken-compared lower s d hs hd = refl
taken-compared lower_same s d hs hd = rw (zero_order s d hs hd) (ground arith)
taken-compared higher s d hs hd = rw (zero_order s d hs hd) (ground arith)
taken-compared higher_same s d hs hd = refl

module _ {B : Type 0} ⦃bus : Bus B⦄ where
  branch-taken :
      (o : Condition) (c : Cpu B)
      → dispatch (branch_handler o) c ≡ apply_branch (taken o (flags c.psw)) c
  unfolding dispatch op_blt op_ble op_bgt op_bge op_blo op_blos op_bhi op_bhis op_beq op_bne
  branch-taken equal c = refl
  branch-taken not_equal c = refl
  branch-taken less c = refl
  branch-taken less_equal c = refl
  branch-taken greater c = refl
  branch-taken greater_equal c = refl
  branch-taken lower c = refl
  branch-taken lower_same c = refl
  branch-taken higher c = refl
  branch-taken higher_same c = refl

  -- The values that CMP compares.
  abbrev pub operands : Cpu B → ℕ × ℕ
  operands c =
      let l = record c { cycles = c.cycles + microcycle } in
      let ((s, a), d) = word_operands l in
      (s, (read_word_op (dst_mode c.instruction) (dst_reg c.instruction) a d).0)

  -- After CMP in any addressing modes a conditional branch branches exactly when its name holds of the
  -- operands: BLT, BLE, BGT and BGE of them as signed numbers, BLO, BLOS, BHI and BHIS as unsigned, BEQ
  -- and BNE of both.
  pub branch-cmp :
      (o : Condition) (i : ℕ) (c : Cpu B)
      → Registers c
      → (op_cmp >> modify (λ d. record d { instruction = i }) >> dispatch (branch_handler o)) c
        ≡ (op_cmp
              >> modify (λ d. record d { instruction = i })
              >> apply_branch (holds o (operands c).0 (operands c).1))
            c
  unfolding dispatch
  branch-cmp o i c h =
      let l = record c { cycles = c.cycles + microcycle } in
      let ((s, a), k) = word_operands l in
      let (v, e) = read_word_op (dst_mode c.instruction) (dst_reg c.instruction) a k in
      let d = record (op_cmp c).1 { instruction = i } in
      let hs = word_operands-fits l h in
      let hv =
        read_word_op-fits (dst_mode c.instruction) (dst_reg c.instruction) a k
          (word_operands-Registers l h) in
      let known : flags d.psw ≡ compared s v =
        ap (λ x. flags x.1.psw) (test-word compare c h) ∙ flags-with_flags e.psw (compared s v) in
      branch-taken o d
      ∙ ap (λ b. apply_branch b d) (ap (taken o) known ∙ taken-compared o s v hs hv)
