-- ===== src/Core/Cpu/ByteFlags.antt =====
-- The results and flags of the handlers on bytes of src/core/src/cpu_ops.c, against the handbook's.
use ms.Base.{
  ℕ, ◌+◌, ◌-◌, ◌*◌, ◌/◌, ◌<◌, ◌≡◌, refl, ◌∙◌, true, false, not, ◌&&◌, ◌==◌, ltb, if◌then◌else◌,
  has_bit, u8, bit_and, bit_or, differ, arith,
}
use ms.Core.Cpu.{put_bit}
use ms.Core.Cpu.Psw.{flags, with_flags, mk, put_nz, set_nc, nz_v_c, nz_v, v_nz, v_c_nz, c_nz_v}
use ms.Core.Cpu.Handbook.{
  unary, binary, test, complement, increment, decrement, negate, add_carry, subtract_carry,
  arithmetic_right, arithmetic_left, rotate_right, rotate_left, bits_clear, bits_set, compare,
  bits_test,
}

-- The top bit of a result is its sign.
sign_bit : (r : ℕ) → r < 256 → has_bit r 7 ≡ not (ltb r 128)
sign_bit r h = ground arith

module _ (p val : ℕ) (h : val < 256) where
  pub com_result : (255 - val) ≡ (unary 128 complement (flags p) val).0
  com_result = ground arith

  pub com_flags :
      put_bit (put_bit (put_nz p ((255 - val) == 0) (has_bit (255 - val) 7)) 1 false) 0 (true)
      ≡ with_flags p (unary 128 complement (flags p) val).1
  com_flags =
      let n = has_bit (255 - val) 7 in
      let z = (255 - val) == 0 in
      let f = (unary 128 complement (flags p) val).1 in
      let en : n ≡ f.n = ground arith in
      let ez : z ≡ f.z = ground arith in
      let ev : false ≡ f.v = ground arith in
      let ec : true ≡ f.c = ground arith in
      nz_v_c p n z false (true) ∙ λ i. with_flags p (mk (en i) (ez i) (ev i) (ec i))

  pub inc_result : (u8 (val + 1)) ≡ (unary 128 increment (flags p) val).0
  inc_result = ground arith

  pub inc_flags :
      put_nz (put_bit p 1 (val == 127)) ((u8 (val + 1)) == 0) (has_bit (u8 (val + 1)) 7)
      ≡ with_flags p (unary 128 increment (flags p) val).1
  inc_flags =
      let n = has_bit (u8 (val + 1)) 7 in
      let z = (u8 (val + 1)) == 0 in
      let f = (unary 128 increment (flags p) val).1 in
      let en : n ≡ f.n = ground arith in
      let ez : z ≡ f.z = ground arith in
      let ev : (val == 127) ≡ f.v = ground arith in
      v_nz p n z (val == 127) ∙ λ i. with_flags p (mk (en i) (ez i) (ev i) (has_bit p 0))

  pub dec_result : (u8 (val + 255)) ≡ (unary 128 decrement (flags p) val).0
  dec_result = ground arith

  pub dec_flags :
      put_nz (put_bit p 1 (val == 128)) ((u8 (val + 255)) == 0) (has_bit (u8 (val + 255)) 7)
      ≡ with_flags p (unary 128 decrement (flags p) val).1
  dec_flags =
      let n = has_bit (u8 (val + 255)) 7 in
      let z = (u8 (val + 255)) == 0 in
      let f = (unary 128 decrement (flags p) val).1 in
      let en : n ≡ f.n = ground arith in
      let ez : z ≡ f.z = ground arith in
      let ev : (val == 128) ≡ f.v = ground arith in
      v_nz p n z (val == 128) ∙ λ i. with_flags p (mk (en i) (ez i) (ev i) (has_bit p 0))

  pub neg_result : (u8 (256 - val)) ≡ (unary 128 negate (flags p) val).0
  neg_result = ground arith

  pub neg_flags :
      put_bit
        (put_bit
          (put_nz p ((u8 (256 - val)) == 0) (has_bit (u8 (256 - val)) 7))
          1
          ((u8 (256 - val)) == 128))
        0
        (not ((u8 (256 - val)) == 0))
      ≡ with_flags p (unary 128 negate (flags p) val).1
  neg_flags =
      let n = has_bit (u8 (256 - val)) 7 in
      let z = (u8 (256 - val)) == 0 in
      let f = (unary 128 negate (flags p) val).1 in
      let en : n ≡ f.n = ground arith in
      let ez : z ≡ f.z = ground arith in
      let ev : ((u8 (256 - val)) == 128) ≡ f.v = ground arith in
      let ec : not ((u8 (256 - val)) == 0) ≡ f.c = ground arith in
      nz_v_c p n z ((u8 (256 - val)) == 128) (not ((u8 (256 - val)) == 0)) ∙ λ i.
      with_flags p (mk (en i) (ez i) (ev i) (ec i))

  pub adc_result :
      (if (has_bit p 0) then u8 (val + 1) else val) ≡ (unary 128 add_carry (flags p) val).0
  adc_result = ground arith

  pub adc_flags :
      put_nz
        (put_bit (put_bit p 1 ((has_bit p 0) && val == 127)) 0 ((has_bit p 0) && val == 255))
        ((if (has_bit p 0) then u8 (val + 1) else val) == 0)
        (has_bit (if (has_bit p 0) then u8 (val + 1) else val) 7)
      ≡ with_flags p (unary 128 add_carry (flags p) val).1
  adc_flags =
      let n = has_bit (if (has_bit p 0) then u8 (val + 1) else val) 7 in
      let z = (if (has_bit p 0) then u8 (val + 1) else val) == 0 in
      let f = (unary 128 add_carry (flags p) val).1 in
      let en : n ≡ f.n = ground arith in
      let ez : z ≡ f.z = ground arith in
      let ev : ((has_bit p 0) && val == 127) ≡ f.v = ground arith in
      let ec : ((has_bit p 0) && val == 255) ≡ f.c = ground arith in
      v_c_nz p n z ((has_bit p 0) && val == 127) ((has_bit p 0) && val == 255) ∙ λ i.
      with_flags p (mk (en i) (ez i) (ev i) (ec i))

  pub sbc_result :
      (if (has_bit p 0) then u8 (val + 255) else val) ≡ (unary 128 subtract_carry (flags p) val).0
  sbc_result = ground arith

  pub sbc_flags :
      put_nz
        (put_bit (put_bit p 1 (val == 128)) 0 ((has_bit p 0) && val == 0))
        ((if (has_bit p 0) then u8 (val + 255) else val) == 0)
        (has_bit (if (has_bit p 0) then u8 (val + 255) else val) 7)
      ≡ with_flags p (unary 128 subtract_carry (flags p) val).1
  sbc_flags =
      let n = has_bit (if (has_bit p 0) then u8 (val + 255) else val) 7 in
      let z = (if (has_bit p 0) then u8 (val + 255) else val) == 0 in
      let f = (unary 128 subtract_carry (flags p) val).1 in
      let en : n ≡ f.n = ground arith in
      let ez : z ≡ f.z = ground arith in
      let ev : (val == 128) ≡ f.v = ground arith in
      let ec : ((has_bit p 0) && val == 0) ≡ f.c = ground arith in
      v_c_nz p n z (val == 128) ((has_bit p 0) && val == 0) ∙ λ i.
      with_flags p (mk (en i) (ez i) (ev i) (ec i))

  pub asr_result :
      (if has_bit val 7 then val / 2 + 128 else val / 2)
      ≡ (unary 128 arithmetic_right (flags p) val).0
  asr_result = ground arith

  pub asr_flags :
      set_nc (
        put_nz
          (put_bit p 0 (has_bit val 0))
          ((if has_bit val 7 then val / 2 + 128 else val / 2) == 0)
          (has_bit (if has_bit val 7 then val / 2 + 128 else val / 2) 7))
      ≡ with_flags p (unary 128 arithmetic_right (flags p) val).1
  asr_flags =
      let n = has_bit (if has_bit val 7 then val / 2 + 128 else val / 2) 7 in
      let z = (if has_bit val 7 then val / 2 + 128 else val / 2) == 0 in
      let f = (unary 128 arithmetic_right (flags p) val).1 in
      let en : n ≡ f.n = ground arith in
      let ez : z ≡ f.z = ground arith in
      let ec : (has_bit val 0) ≡ f.c = ground arith in
      c_nz_v p n z (has_bit val 0) ∙ λ i.
      with_flags p (mk (en i) (ez i) (differ (en i) (ec i)) (ec i))

  pub asl_result : (u8 (val * 2)) ≡ (unary 128 arithmetic_left (flags p) val).0
  asl_result = ground arith

  pub asl_flags :
      set_nc (put_nz (put_bit p 0 (has_bit val 7)) ((u8 (val * 2)) == 0) (has_bit (u8 (val * 2)) 7))
      ≡ with_flags p (unary 128 arithmetic_left (flags p) val).1
  asl_flags =
      let n = has_bit (u8 (val * 2)) 7 in
      let z = (u8 (val * 2)) == 0 in
      let f = (unary 128 arithmetic_left (flags p) val).1 in
      let en : n ≡ f.n = ground arith in
      let ez : z ≡ f.z = ground arith in
      let ec : (has_bit val 7) ≡ f.c = ground arith in
      c_nz_v p n z (has_bit val 7) ∙ λ i.
      with_flags p (mk (en i) (ez i) (differ (en i) (ec i)) (ec i))

  pub ror_result :
      (if (has_bit p 0) then val / 2 + 128 else val / 2) ≡ (unary 128 rotate_right (flags p) val).0
  ror_result = ground arith

  pub ror_flags :
      set_nc (
        put_nz
          (put_bit p 0 (has_bit val 0))
          ((if (has_bit p 0) then val / 2 + 128 else val / 2) == 0)
          (has_bit (if (has_bit p 0) then val / 2 + 128 else val / 2) 7))
      ≡ with_flags p (unary 128 rotate_right (flags p) val).1
  ror_flags =
      let n = has_bit (if (has_bit p 0) then val / 2 + 128 else val / 2) 7 in
      let z = (if (has_bit p 0) then val / 2 + 128 else val / 2) == 0 in
      let f = (unary 128 rotate_right (flags p) val).1 in
      let en : n ≡ f.n = ground arith in
      let ez : z ≡ f.z = ground arith in
      let ec : (has_bit val 0) ≡ f.c = ground arith in
      c_nz_v p n z (has_bit val 0) ∙ λ i.
      with_flags p (mk (en i) (ez i) (differ (en i) (ec i)) (ec i))

  pub rol_result :
      (if (has_bit p 0) then u8 (val * 2) + 1 else u8 (val * 2))
      ≡ (unary 128 rotate_left (flags p) val).0
  rol_result = ground arith

  pub rol_flags :
      set_nc (
        put_nz
          (put_bit p 0 (has_bit val 7))
          ((if (has_bit p 0) then u8 (val * 2) + 1 else u8 (val * 2)) == 0)
          (has_bit (if (has_bit p 0) then u8 (val * 2) + 1 else u8 (val * 2)) 7))
      ≡ with_flags p (unary 128 rotate_left (flags p) val).1
  rol_flags =
      let n = has_bit (if (has_bit p 0) then u8 (val * 2) + 1 else u8 (val * 2)) 7 in
      let z = (if (has_bit p 0) then u8 (val * 2) + 1 else u8 (val * 2)) == 0 in
      let f = (unary 128 rotate_left (flags p) val).1 in
      let en : n ≡ f.n = ground arith in
      let ez : z ≡ f.z = ground arith in
      let ec : (has_bit val 7) ≡ f.c = ground arith in
      c_nz_v p n z (has_bit val 7) ∙ λ i.
      with_flags p (mk (en i) (ez i) (differ (en i) (ec i)) (ec i))

module _ (p s d : ℕ) (hs : s < 256) (hd : d < 256) where
  pub bic_flags :
      put_bit
        (put_nz p ((u8 (bit_and d (255 - s))) == 0) (has_bit (u8 (bit_and d (255 - s))) 7))
        1
        false
      ≡ with_flags p ((binary 128 bits_clear (flags p) s d).1)
  bic_flags =
      let r = u8 (bit_and d (255 - s)) in
      let n = has_bit r 7 in
      let z = r == 0 in
      let f = (binary 128 bits_clear (flags p) s d).1 in
      let en : n ≡ f.n = sign_bit r (omega arith) in
      let ev : false ≡ f.v = refl in
      nz_v p n z false ∙ λ i. with_flags p (mk (en i) z (ev i) (has_bit p 0))

  pub bis_flags :
      put_bit (put_nz p ((u8 (bit_or d s)) == 0) (has_bit (u8 (bit_or d s)) 7)) 1 false
      ≡ with_flags p ((binary 128 bits_set (flags p) s d).1)
  bis_flags =
      let r = u8 (bit_or d s) in
      let n = has_bit r 7 in
      let z = r == 0 in
      let f = (binary 128 bits_set (flags p) s d).1 in
      let en : n ≡ f.n = sign_bit r (omega arith) in
      let ev : false ≡ f.v = refl in
      nz_v p n z false ∙ λ i. with_flags p (mk (en i) z (ev i) (has_bit p 0))

  pub cmp_flags :
      put_bit
        (put_bit (put_nz p ((u8 (s + 256 - d)) == 0) (has_bit (u8 (s + 256 - d)) 7)) 1 (
          differ (has_bit s 7) (has_bit d 7)
          && differ (has_bit s 7) (has_bit (u8 (s + 256 - d)) 7)))
        0
        ((ltb s d))
      ≡ with_flags p (test 128 compare (flags p) s d)
  cmp_flags =
      let r = u8 (s + 256 - d) in
      let n = has_bit r 7 in
      let z = r == 0 in
      let f = test 128 compare (flags p) s d in
      let en : n ≡ f.n = sign_bit r (omega arith) in
      let ev : (differ (has_bit s 7) (has_bit d 7)
            && differ (has_bit s 7) (has_bit (u8 (s + 256 - d)) 7))
          ≡ f.v =
        ground arith in
      nz_v_c p n z
        (differ (has_bit s 7) (has_bit d 7) && differ (has_bit s 7) (has_bit (u8 (s + 256 - d)) 7))
        (ltb s d)
      ∙ λ i. with_flags p (mk (en i) z (ev i) ((ltb s d)))

  pub bit_flags :
      put_bit (put_nz p ((u8 (bit_and s d)) == 0) (has_bit (u8 (bit_and s d)) 7)) 1 false
      ≡ with_flags p (test 128 bits_test (flags p) s d)
  bit_flags =
      let r = u8 (bit_and s d) in
      let n = has_bit r 7 in
      let z = r == 0 in
      let f = test 128 bits_test (flags p) s d in
      let en : n ≡ f.n = sign_bit r (omega arith) in
      let ev : false ≡ f.v = refl in
      nz_v p n z false ∙ λ i. with_flags p (mk (en i) z (ev i) (has_bit p 0))
