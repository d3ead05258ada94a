-- ===== src/Core/Ramdisk/Transfer.antt =====
-- Whole pages through the data port of src/core/src/ramdisk.c, the way the EX.SYS driver moves them.
use ms.Base.{
  ℕ, zero, suc, ◌+◌, ◌*◌, ◌%◌, ◌<◌, ◌≤◌, ◌≡◌, ◌≢◌, ◌⊎◌, inl, inr, some, List, [], ◌∷◌, arith, refl,
  ap, ap₂, sym, ◌∙◌, length, Bytes, store, stores, loads, stores_outside, loads-stores, loads_ext,
}
use native.Mathlib.Decide.{dec_lt}
use ms.Core.Ramdisk.{Ramdisk, read_data, read, write_data, write, io_data, io_ppi_wr_a, io_ppi_wr_b}

-- The driver selects a page: START and RESET with the bank on port B, START with the bank, and the
-- page on port A.
unfoldable pub seek : Ramdisk → ℕ → ℕ → Ramdisk
unfolding write
seek rd bank page =
    write (write (write rd io_ppi_wr_b (0xa0 + bank)) io_ppi_wr_b (0x80 + bank)) io_ppi_wr_a page

unfoldable pub write_all : Ramdisk → List ℕ → Ramdisk
write_all rd [] = rd
write_all rd (v ∷ vs) = write_all (write rd io_data v) vs

unfoldable pub read_all : Ramdisk → ℕ → List ℕ
read_all rd zero = []
read_all rd (suc n) = let (v, rd') = read rd io_data in v ∷ read_all rd' n

abbrev page_base : ℕ → ℕ → ℕ
page_base bank page = bank * 65536 + page * 256

-- The device at a cell of a page.
record At (bank page cell : ℕ) (ram : Bytes) (rd : Ramdisk) : Type 0 where
  bank_fits : bank < 8
  page_fits : page < 256
  bank_set : rd.ppi_b % 8 ≡ bank
  page_set : rd.ppi_a ≡ page
  cell_set : rd.counter ≡ cell % 256
  allocated : rd.ram ≡ some ram

seek-At :
    (rd : Ramdisk) (bank page : ℕ) (ram : Bytes)
    → bank < 8
    → page < 256
    → rd.ram ≡ some ram
    → At bank page 0 ram (seek rd bank page)
unfolding seek
seek-At rd bank page ram hb hp e = ground arith

module _ (bank page : ℕ) where
  write-At :
      (rd : Ramdisk) (cell v : ℕ) (ram : Bytes)
      → cell < 256
      → At bank page cell ram rd
      → At bank page (cell + 1) (store ram (page_base bank page + cell) v) (write rd io_data v)
  unfolding write write_data
  write-At rd cell v ram h a = ground arith

  read-At :
      (rd : Ramdisk) (cell : ℕ) (ram : Bytes)
      → cell < 256
      → At bank page cell ram rd
      → ((read rd io_data).0 ≡ ram (page_base bank page + cell))
        × At bank page (cell + 1) ram (read rd io_data).1
  unfolding read read_data
  read-At rd cell ram h a = (ground arith, ground arith)

  write_all-ram :
      (rd : Ramdisk) (cell : ℕ) (ram : Bytes) (vs : List ℕ)
      → cell + length vs ≤ 256
      → At bank page cell ram rd
      → (write_all rd vs).ram ≡ some (stores ram (page_base bank page + cell) vs)
  unfolding write_all stores
  write_all-ram rd cell ram [] h a = a.allocated
  write_all-ram rd cell ram (v ∷ vs) h a =
      let next : page_base bank page + (cell + 1) ≡ page_base bank page + cell + 1 = omega arith in
      write_all-ram (write rd io_data v) (cell + 1) (store ram (page_base bank page + cell) v) vs
        (omega arith) (write-At rd cell v ram (omega arith) a)
      ∙ ap (λ k. some (stores (store ram (page_base bank page + cell) v) k vs)) next

  read_all-At :
      (rd : Ramdisk) (cell : ℕ) (ram : Bytes) (n : ℕ)
      → cell + n ≤ 256
      → At bank page cell ram rd
      → read_all rd n ≡ loads ram (page_base bank page + cell) n
  unfolding read_all loads
  read_all-At rd cell ram zero h a = refl
  read_all-At rd cell ram (suc n) h a =
      let next : page_base bank page + (cell + 1) ≡ page_base bank page + cell + 1 = omega arith in
      let r = read-At rd cell ram (omega arith) a in
      ap₂ ◌∷◌ r.0 (
        read_all-At (read rd io_data).1 (cell + 1) ram n (omega arith) r.1
        ∙ ap (λ k. loads ram k n) next)

-- Two pages share no cell.
pages_apart :
    (bank page bank' page' n len j : ℕ)
    → bank < 8
    → page < 256
    → bank' < 8
    → page' < 256
    → n ≤ 256
    → len ≤ 256
    → (bank' ≢ bank) ⊎ (page' ≢ page)
    → page_base bank' page' + 0 ≤ j
    → j < page_base bank' page' + 0 + n
    → (j < page_base bank page + 0) ⊎ (page_base bank page + 0 + len ≤ j)
pages_apart bank page bank' page' n len j h1 h2 h3 h4 h5 h6 other a b =
    elim (dec_lt j (page_base bank page + 0)) [ yes p ↦ inl p | no p ↦ inr (omega arith) ]

module _ (rd : Ramdisk) (ram : Bytes) (allocated : rd.ram ≡ some ram) (bank page : ℕ)
    (bank_fits : bank < 8) (page_fits : page < 256) (vs : List ℕ) (fits : length vs ≤ 256) where
  -- The bytes written to a page are there.
  write_page :
      (write_all (seek rd bank page) vs).ram ≡ some (stores ram (page_base bank page + 0) vs)
  write_page =
      write_all-ram bank page (seek rd bank page) 0 ram vs (omega arith)
        (seek-At rd bank page ram bank_fits page_fits allocated)

  read_page :
      (bank' page' n : ℕ)
      → bank' < 8
      → page' < 256
      → n ≤ 256
      → read_all (seek (write_all (seek rd bank page) vs) bank' page') n
        ≡ loads (stores ram (page_base bank page + 0) vs) (page_base bank' page' + 0) n
  read_page bank' page' n hb hp hn =
      read_all-At bank' page' (seek (write_all (seek rd bank page) vs) bank' page') 0 _ n
        (omega arith) (seek-At (write_all (seek rd bank page) vs) bank' page' _ hb hp write_page)

  -- What is written to a page through the data port is read back from it, byte by byte.
  pub read_all-write_all :
      read_all (seek (write_all (seek rd bank page) vs) bank page) (length vs) ≡ vs
  read_all-write_all =
      read_page bank page (length vs) bank_fits page_fits fits
      ∙ loads-stores ram (page_base bank page + 0) vs

  -- Every other page reads as it did before.
  pub read_all-write_all_ne :
      (bank' page' n : ℕ)
      → bank' < 8
      → page' < 256
      → n ≤ 256
      → (bank' ≢ bank) ⊎ (page' ≢ page)
      → read_all (seek (write_all (seek rd bank page) vs) bank' page') n
        ≡ read_all (seek rd bank' page') n
  read_all-write_all_ne bank' page' n hb hp hn other =
      read_page bank' page' n hb hp hn
      ∙ loads_ext _ ram (page_base bank' page' + 0) n (λ j a b.
        stores_outside ram (page_base bank page + 0) vs j (
          pages_apart bank page bank' page' n (length vs) j bank_fits page_fits hb hp hn fits other
            a b))
      ∙ sym (
          read_all-At bank' page' (seek rd bank' page') 0 ram n (omega arith)
            (seek-At rd bank' page' ram hb hp allocated))
