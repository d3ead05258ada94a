-- ===== src/Core/Cpu/WordFlags.antt =====
-- The results and flags of the handlers on words of src/core/src/cpu_ops.c, against the handbook's.
use ms.Base.{
  ℕ, ◌+◌, ◌-◌, ◌*◌, ◌/◌, ◌<◌, ◌≡◌, refl, ◌∙◌, true, false, not, ◌&&◌, ◌==◌, ltb, if◌then◌else◌,
  has_bit, u16, bit_and, bit_or, differ, arith,
}
use ms.Core.Cpu.{put_bit}
use ms.Core.Cpu.Psw.{flags, with_flags, mk, put_nz, set_nc, nz_v_c, nz_v, v_nz, v_c_nz, c_nz_v}
use ms.Core.Cpu.Handbook.{
  unary, binary, test, complement, increment, decrement, negate, add_carry, subtract_carry,
  arithmetic_right, arithmetic_left, rotate_right, rotate_left, bits_clear, bits_set, add, subtract,
  compare, bits_test,
}

-- The top bit of a result is its sign.
sign_bit : (r : ℕ) → r < 65536 → has_bit r 15 ≡ not (ltb r 32768)
sign_bit r h = ground arith

module _ (p val : ℕ) (h : val < 65536) where
  pub com_result : (65535 - val) ≡ (unary 32768 complement (flags p) val).0
  com_result = ground arith

  pub com_flags :
      put_bit (put_bit (put_nz p ((65535 - val) == 0) (has_bit (65535 - val) 15)) 1 false) 0 (true)
      ≡ with_flags p (unary 32768 complement (flags p) val).1
  com_flags =
      let n = has_bit (65535 - val) 15 in
      let z = (65535 - val) == 0 in
      let f = (unary 32768 complement (flags p) val).1 in
      let en : n ≡ f.n = ground arith in
      let ez : z ≡ f.z = ground arith in
      let ev : false ≡ f.v = ground arith in
      let ec : true ≡ f.c = ground arith in
      nz_v_c p n z false (true) ∙ λ i. with_flags p (mk (en i) (ez i) (ev i) (ec i))

  pub inc_result : (u16 (val + 1)) ≡ (unary 32768 increment (flags p) val).0
  inc_result = ground arith

  pub inc_flags :
      put_nz (put_bit p 1 (val == 32767)) ((u16 (val + 1)) == 0) (has_bit (u16 (val + 1)) 15)
      ≡ with_flags p (unary 32768 increment (flags p) val).1
  inc_flags =
      let n = has_bit (u16 (val + 1)) 15 in
      let z = (u16 (val + 1)) == 0 in
      let f = (unary 32768 increment (flags p) val).1 in
      let en : n ≡ f.n = ground arith in
      let ez : z ≡ f.z = ground arith in
      let ev : (val == 32767) ≡ f.v = ground arith in
      v_nz p n z (val == 32767) ∙ λ i. with_flags p (mk (en i) (ez i) (ev i) (has_bit p 0))

  pub dec_result : (u16 (val + 65535)) ≡ (unary 32768 decrement (flags p) val).0
  dec_result = ground arith

  pub dec_flags :
      put_nz
        (put_bit p 1 (val == 32768))
        ((u16 (val + 65535)) == 0)
        (has_bit (u16 (val + 65535)) 15)
      ≡ with_flags p (unary 32768 decrement (flags p) val).1
  dec_flags =
      let n = has_bit (u16 (val + 65535)) 15 in
      let z = (u16 (val + 65535)) == 0 in
      let f = (unary 32768 decrement (flags p) val).1 in
      let en : n ≡ f.n = ground arith in
      let ez : z ≡ f.z = ground arith in
      let ev : (val == 32768) ≡ f.v = ground arith in
      v_nz p n z (val == 32768) ∙ λ i. with_flags p (mk (en i) (ez i) (ev i) (has_bit p 0))

  pub neg_result : (u16 (65536 - val)) ≡ (unary 32768 negate (flags p) val).0
  neg_result = ground arith

  pub neg_flags :
      put_bit
        (put_bit
          (put_nz p ((u16 (65536 - val)) == 0) (has_bit (u16 (65536 - val)) 15))
          1
          ((u16 (65536 - val)) == 32768))
        0
        (not ((u16 (65536 - val)) == 0))
      ≡ with_flags p (unary 32768 negate (flags p) val).1
  neg_flags =
      let n = has_bit (u16 (65536 - val)) 15 in
      let z = (u16 (65536 - val)) == 0 in
      let f = (unary 32768 negate (flags p) val).1 in
      let en : n ≡ f.n = ground arith in
      let ez : z ≡ f.z = ground arith in
      let ev : ((u16 (65536 - val)) == 32768) ≡ f.v = ground arith in
      let ec : not ((u16 (65536 - val)) == 0) ≡ f.c = ground arith in
      nz_v_c p n z ((u16 (65536 - val)) == 32768) (not ((u16 (65536 - val)) == 0)) ∙ λ i.
      with_flags p (mk (en i) (ez i) (ev i) (ec i))

  pub adc_result :
      (if (has_bit p 0) then u16 (val + 1) else val) ≡ (unary 32768 add_carry (flags p) val).0
  adc_result = ground arith

  pub adc_flags :
      put_nz
        (put_bit (put_bit p 1 ((has_bit p 0) && val == 32767)) 0 ((has_bit p 0) && val == 65535))
        ((if (has_bit p 0) then u16 (val + 1) else val) == 0)
        (has_bit (if (has_bit p 0) then u16 (val + 1) else val) 15)
      ≡ with_flags p (unary 32768 add_carry (flags p) val).1
  adc_flags =
      let n = has_bit (if (has_bit p 0) then u16 (val + 1) else val) 15 in
      let z = (if (has_bit p 0) then u16 (val + 1) else val) == 0 in
      let f = (unary 32768 add_carry (flags p) val).1 in
      let en : n ≡ f.n = ground arith in
      let ez : z ≡ f.z = ground arith in
      let ev : ((has_bit p 0) && val == 32767) ≡ f.v = ground arith in
      let ec : ((has_bit p 0) && val == 65535) ≡ f.c = ground arith in
      v_c_nz p n z ((has_bit p 0) && val == 32767) ((has_bit p 0) && val == 65535) ∙ λ i.
      with_flags p (mk (en i) (ez i) (ev i) (ec i))

  pub sbc_result :
      (if (has_bit p 0) then u16 (val + 65535) else val)
      ≡ (unary 32768 subtract_carry (flags p) val).0
  sbc_result = ground arith

  pub sbc_flags :
      put_nz
        (put_bit (put_bit p 1 (val == 32768)) 0 ((has_bit p 0) && val == 0))
        ((if (has_bit p 0) then u16 (val + 65535) else val) == 0)
        (has_bit (if (has_bit p 0) then u16 (val + 65535) else val) 15)
      ≡ with_flags p (unary 32768 subtract_carry (flags p) val).1
  sbc_flags =
      let n = has_bit (if (has_bit p 0) then u16 (val + 65535) else val) 15 in
      let z = (if (has_bit p 0) then u16 (val + 65535) else val) == 0 in
      let f = (unary 32768 subtract_carry (flags p) val).1 in
      let en : n ≡ f.n = ground arith in
      let ez : z ≡ f.z = ground arith in
      let ev : (val == 32768) ≡ f.v = ground arith in
      let ec : ((has_bit p 0) && val == 0) ≡ f.c = ground arith in
      v_c_nz p n z (val == 32768) ((has_bit p 0) && val == 0) ∙ λ i.
      with_flags p (mk (en i) (ez i) (ev i) (ec i))

  pub asr_result :
      (if has_bit val 15 then val / 2 + 32768 else val / 2)
      ≡ (unary 32768 arithmetic_right (flags p) val).0
  asr_result = ground arith

  pub asr_flags :
      set_nc (
        put_nz
          (put_bit p 0 (has_bit val 0))
          ((if has_bit val 15 then val / 2 + 32768 else val / 2) == 0)
          (has_bit (if has_bit val 15 then val / 2 + 32768 else val / 2) 15))
      ≡ with_flags p (unary 32768 arithmetic_right (flags p) val).1
  asr_flags =
      let n = has_bit (if has_bit val 15 then val / 2 + 32768 else val / 2) 15 in
      let z = (if has_bit val 15 then val / 2 + 32768 else val / 2) == 0 in
      let f = (unary 32768 arithmetic_right (flags p) val).1 in
      let en : n ≡ f.n = ground arith in
      let ez : z ≡ f.z = ground arith in
      let ec : (has_bit val 0) ≡ f.c = ground arith in
      c_nz_v p n z (has_bit val 0) ∙ λ i.
      with_flags p (mk (en i) (ez i) (differ (en i) (ec i)) (ec i))

  pub asl_result : (u16 (val * 2)) ≡ (unary 32768 arithmetic_left (flags p) val).0
  asl_result = ground arith

  pub asl_flags :
      set_nc
        (put_nz (put_bit p 0 (has_bit val 15)) ((u16 (val * 2)) == 0) (has_bit (u16 (val * 2)) 15))
      ≡ with_flags p (unary 32768 arithmetic_left (flags p) val).1
  asl_flags =
      let n = has_bit (u16 (val * 2)) 15 in
      let z = (u16 (val * 2)) == 0 in
      let f = (unary 32768 arithmetic_left (flags p) val).1 in
      let en : n ≡ f.n = ground arith in
      let ez : z ≡ f.z = ground arith in
      let ec : (has_bit val 15) ≡ f.c = ground arith in
      c_nz_v p n z (has_bit val 15) ∙ λ i.
      with_flags p (mk (en i) (ez i) (differ (en i) (ec i)) (ec i))

  pub ror_result :
      (if (has_bit p 0) then val / 2 + 32768 else val / 2)
      ≡ (unary 32768 rotate_right (flags p) val).0
  ror_result = ground arith

  pub ror_flags :
      set_nc (
        put_nz
          (put_bit p 0 (has_bit val 0))
          ((if (has_bit p 0) then val / 2 + 32768 else val / 2) == 0)
          (has_bit (if (has_bit p 0) then val / 2 + 32768 else val / 2) 15))
      ≡ with_flags p (unary 32768 rotate_right (flags p) val).1
  ror_flags =
      let n = has_bit (if (has_bit p 0) then val / 2 + 32768 else val / 2) 15 in
      let z = (if (has_bit p 0) then val / 2 + 32768 else val / 2) == 0 in
      let f = (unary 32768 rotate_right (flags p) val).1 in
      let en : n ≡ f.n = ground arith in
      let ez : z ≡ f.z = ground arith in
      let ec : (has_bit val 0) ≡ f.c = ground arith in
      c_nz_v p n z (has_bit val 0) ∙ λ i.
      with_flags p (mk (en i) (ez i) (differ (en i) (ec i)) (ec i))

  pub rol_result :
      (if (has_bit p 0) then u16 (val * 2) + 1 else u16 (val * 2))
      ≡ (unary 32768 rotate_left (flags p) val).0
  rol_result = ground arith

  pub rol_flags :
      set_nc (
        put_nz
          (put_bit p 0 (has_bit val 15))
          ((if (has_bit p 0) then u16 (val * 2) + 1 else u16 (val * 2)) == 0)
          (has_bit (if (has_bit p 0) then u16 (val * 2) + 1 else u16 (val * 2)) 15))
      ≡ with_flags p (unary 32768 rotate_left (flags p) val).1
  rol_flags =
      let n = has_bit (if (has_bit p 0) then u16 (val * 2) + 1 else u16 (val * 2)) 15 in
      let z = (if (has_bit p 0) then u16 (val * 2) + 1 else u16 (val * 2)) == 0 in
      let f = (unary 32768 rotate_left (flags p) val).1 in
      let en : n ≡ f.n = ground arith in
      let ez : z ≡ f.z = ground arith in
      let ec : (has_bit val 15) ≡ f.c = ground arith in
      c_nz_v p n z (has_bit val 15) ∙ λ i.
      with_flags p (mk (en i) (ez i) (differ (en i) (ec i)) (ec i))

module _ (p s d : ℕ) (hs : s < 65536) (hd : d < 65536) where
  pub bic_flags :
      put_bit
        (put_nz p ((u16 (bit_and d (65535 - s))) == 0) (has_bit (u16 (bit_and d (65535 - s))) 15))
        1
        false
      ≡ with_flags p ((binary 32768 bits_clear (flags p) s d).1)
  bic_flags =
      let r = u16 (bit_and d (65535 - s)) in
      let n = has_bit r 15 in
      let z = r == 0 in
      let f = (binary 32768 bits_clear (flags p) s d).1 in
      let en : n ≡ f.n = sign_bit r (omega arith) in
      let ev : false ≡ f.v = refl in
      nz_v p n z false ∙ λ i. with_flags p (mk (en i) z (ev i) (has_bit p 0))

  pub bis_flags :
      put_bit (put_nz p ((u16 (bit_or d s)) == 0) (has_bit (u16 (bit_or d s)) 15)) 1 false
      ≡ with_flags p ((binary 32768 bits_set (flags p) s d).1)
  bis_flags =
      let r = u16 (bit_or d s) in
      let n = has_bit r 15 in
      let z = r == 0 in
      let f = (binary 32768 bits_set (flags p) s d).1 in
      let en : n ≡ f.n = sign_bit r (omega arith) in
      let ev : false ≡ f.v = refl in
      nz_v p n z false ∙ λ i. with_flags p (mk (en i) z (ev i) (has_bit p 0))

  pub add_flags :
      put_bit
        (put_bit (put_nz p ((u16 (s + d)) == 0) (has_bit (u16 (s + d)) 15)) 1 (
          not (differ (has_bit s 15) (has_bit d 15))
          && differ (has_bit s 15) (has_bit (u16 (s + d)) 15)))
        0
        ((ltb 65535 (s + d)))
      ≡ with_flags p ((binary 32768 add (flags p) s d).1)
  add_flags =
      let r = u16 (s + d) in
      let n = has_bit r 15 in
      let z = r == 0 in
      let f = (binary 32768 add (flags p) s d).1 in
      let en : n ≡ f.n = sign_bit r (omega arith) in
      let ev : (not (differ (has_bit s 15) (has_bit d 15))
            && differ (has_bit s 15) (has_bit (u16 (s + d)) 15))
          ≡ f.v =
        ground arith in
      nz_v_c p n z
        (not (differ (has_bit s 15) (has_bit d 15))
          && differ (has_bit s 15) (has_bit (u16 (s + d)) 15))
        (ltb 65535 (s + d))
      ∙ λ i. with_flags p (mk (en i) z (ev i) ((ltb 65535 (s + d))))

  pub sub_flags :
      put_bit
        (put_bit (put_nz p ((u16 (d + 65536 - s)) == 0) (has_bit (u16 (d + 65536 - s)) 15)) 1 (
          differ (has_bit d 15) (has_bit s 15)
          && differ (not (has_bit s 15)) (has_bit (u16 (d + 65536 - s)) 15)))
        0
        ((ltb d s))
      ≡ with_flags p ((binary 32768 subtract (flags p) s d).1)
  sub_flags =
      let r = u16 (d + 65536 - s) in
      let n = has_bit r 15 in
      let z = r == 0 in
      let f = (binary 32768 subtract (flags p) s d).1 in
      let en : n ≡ f.n = sign_bit r (omega arith) in
      let ev : (differ (has_bit d 15) (has_bit s 15)
            && differ (not (has_bit s 15)) (has_bit (u16 (d + 65536 - s)) 15))
          ≡ f.v =
        ground arith in
      nz_v_c p n z
        (differ (has_bit d 15) (has_bit s 15)
          && differ (not (has_bit s 15)) (has_bit (u16 (d + 65536 - s)) 15))
        (ltb d s)
      ∙ λ i. with_flags p (mk (en i) z (ev i) ((ltb d s)))

  pub cmp_flags :
      put_bit
        (put_bit (put_nz p ((u16 (s + 65536 - d)) == 0) (has_bit (u16 (s + 65536 - d)) 15)) 1 (
          differ (has_bit s 15) (has_bit d 15)
          && differ (has_bit s 15) (has_bit (u16 (s + 65536 - d)) 15)))
        0
        ((ltb s d))
      ≡ with_flags p (test 32768 compare (flags p) s d)
  cmp_flags =
      let r = u16 (s + 65536 - d) in
      let n = has_bit r 15 in
      let z = r == 0 in
      let f = test 32768 compare (flags p) s d in
      let en : n ≡ f.n = sign_bit r (omega arith) in
      let ev : (differ (has_bit s 15) (has_bit d 15)
            && differ (has_bit s 15) (has_bit (u16 (s + 65536 - d)) 15))
          ≡ f.v =
        ground arith in
      nz_v_c p n z
        (differ (has_bit s 15) (has_bit d 15)
          && differ (has_bit s 15) (has_bit (u16 (s + 65536 - d)) 15))
        (ltb s d)
      ∙ λ i. with_flags p (mk (en i) z (ev i) ((ltb s d)))

  pub bit_flags :
      put_bit (put_nz p ((u16 (bit_and s d)) == 0) (has_bit (u16 (bit_and s d)) 15)) 1 false
      ≡ with_flags p (test 32768 bits_test (flags p) s d)
  bit_flags =
      let r = u16 (bit_and s d) in
      let n = has_bit r 15 in
      let z = r == 0 in
      let f = test 32768 bits_test (flags p) s d in
      let en : n ≡ f.n = sign_bit r (omega arith) in
      let ev : false ≡ f.v = refl in
      nz_v p n z false ∙ λ i. with_flags p (mk (en i) z (ev i) (has_bit p 0))
