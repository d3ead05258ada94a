-- ===== src/Disk/Sparse.antt =====
-- src/disk/src/SparseVolume.cpp and its header: a volume that keeps only the blocks in use, and its
-- serial form. `std::vector` and `std::span` are lists of bytes; a pointer to a block is the list
-- of the bytes from it on, of which 512 are copied; a block number is a signed `int`.
pub mod Valid
pub mod Serial
pub mod Entries
pub mod Parse
pub mod Rows
pub mod Laid
pub mod Gathered
pub mod Linear
mod Tests
use ms.Base.{
  ℕ, zero, suc, ◌+◌, ◌-◌, ◌*◌, ◌/◌, ◌%◌, Bool, true, false, ◌&&◌, ◌||◌, not, ◌==◌, ltb, leb,
  if◌then◌else◌, List, [], ◌∷◌, ◌++◌, ◌⊎◌, inl, inr, none, some, ℤ, pos, negsuc, length, take, drop,
  get_or, replicate, Map, find, put, erase, below, emplace, word, low,
}

-- `kMagic`: "MS0515SV"
abbrev pub magic : List ℕ
magic = 77 ∷ 83 ∷ 48 ∷ 53 ∷ 49 ∷ 53 ∷ 83 ∷ 86 ∷ []

abbrev pub version : ℕ
version = 1

abbrev pub block_size : ℕ
block_size = 512

abbrev pub header : ℕ
header = 20

abbrev pub entry : ℕ
entry = 4 + block_size

-- `put16` and `put32`: the bytes they append.
abbrev pub put16 : ℕ → List ℕ
put16 v = v % 256 ∷ v / 256 % 256 ∷ []

abbrev pub put32 : ℕ → List ℕ
put32 v = put16 (v % 65536) ++ put16 (v / 65536)

abbrev pub get16 : List ℕ → ℕ → ℕ
get16 bytes at = word (get_or bytes at 0) (get_or bytes (at + 1) 0)

abbrev pub get32 : List ℕ → ℕ → ℕ
get32 bytes at = get16 bytes at + get16 bytes (at + 2) * 65536

-- `allZero`, on the bytes of one block.
abbrev pub all_zero : List ℕ → Bool
all_zero [] = true
all_zero (b ∷ bs) = (b == 0) && all_zero bs

-- `memcmp(a, b, n) == 0` on lists of the same length
abbrev pub same_bytes : List ℕ → List ℕ → Bool
same_bytes [] [] = true
same_bytes (x ∷ xs) (y ∷ ys) = (x == y) && same_bytes xs ys
same_bytes xs ys = false

pub record SparseVolume : Type 0 where
  pub blocks : ℕ
  pub held : Map (List ℕ)

-- `std::max(blocks, 0)`
abbrev pub clamp : ℤ → ℕ
clamp (pos n) = n
clamp (negsuc n) = 0

-- The constructor.
abbrev pub sparse_volume : ℤ → SparseVolume
sparse_volume blocks = record { blocks = clamp blocks; held = [] }

-- The reasons of `parse`.
pub data Refusal : Type 0 where
  not_sparse unknown_version other_block_size wrong_count out_of_order : Refusal

-- The loop of `parse`, with so many blocks to read, from the bytes that are left.
unfoldable pub parse_blocks : ℕ → ℕ → ℕ → Map (List ℕ) → List ℕ → Refusal ⊎ SparseVolume
parse_blocks blocks zero floor held rest = inr (record { blocks = blocks; held = held })
parse_blocks blocks (suc left) floor held rest =
    let lbn = get32 rest 0 in
    let held' = emplace held lbn (take block_size (drop 4 rest)) in
    let next = parse_blocks blocks left (lbn + 1) held' (drop entry rest) in
    if leb blocks lbn || ltb lbn floor then inl Refusal.out_of_order else next

-- `parse`
unfoldable pub parse : List ℕ → Refusal ⊎ SparseVolume
unfolding parse_blocks
parse bytes =
    let blocks = get32 bytes 12 in
    let count = get32 bytes 16 in
    let extra = length bytes - header in
    if ltb (length bytes) header || not (same_bytes (take 8 bytes) magic)
    then inl Refusal.not_sparse
    else if not (get16 bytes 8 == version)
    then inl Refusal.unknown_version
    else if not (get16 bytes 10 == block_size)
    then inl Refusal.other_block_size
    else if ltb 0x7fffffff blocks || not (extra % entry == 0) || not (extra / entry == count)
    then inl Refusal.wrong_count
    else parse_blocks blocks count 0 [] (drop header bytes)

-- The loop of `serialize`.
unfoldable pub serialize_blocks : Map (List ℕ) → List ℕ
serialize_blocks [] = []
serialize_blocks ((lbn, block) ∷ held) = put32 lbn ++ block ++ serialize_blocks held

-- `serialize`
unfoldable pub serialize : SparseVolume → List ℕ
serialize v =
    magic
    ++ put16 version
    ++ put16 block_size
    ++ put32 v.blocks
    ++ put32 (length v.held)
    ++ serialize_blocks v.held

-- `readBlock`
unfoldable pub read_block : SparseVolume → ℤ → List ℕ
read_block v (pos lbn) = elim (find v.held lbn) [ none ↦ replicate block_size 0 | some b ↦ b ]
read_block v (negsuc _) = replicate block_size 0

-- `writeBlock`
unfoldable pub write_block : SparseVolume → ℤ → List ℕ → SparseVolume
write_block v (negsuc _) bytes = v
write_block v (pos lbn) bytes =
    if leb v.blocks lbn
    then v
    else if all_zero (take block_size bytes)
    then record v { held = erase v.held lbn }
    else record v { held = put v.held lbn (take block_size bytes) }

-- `clearBlock`
unfoldable pub clear_block : SparseVolume → ℤ → SparseVolume
clear_block v (pos lbn) = record v { held = erase v.held lbn }
clear_block v (negsuc _) = v

-- `resize`
unfoldable pub resize : SparseVolume → ℤ → SparseVolume
resize v blocks = record { blocks = clamp blocks; held = below v.held (clamp blocks) }

-- The loop of `fromLinear`, with so many blocks left from block `lbn` on.
unfoldable pub take_blocks : List ℕ → ℕ → ℕ → SparseVolume → SparseVolume
take_blocks linear zero lbn v = v
take_blocks linear (suc left) lbn v =
    take_blocks linear left (lbn + 1) (write_block v (pos lbn) (drop (lbn * block_size) linear))

-- `fromLinear`
unfoldable pub from_linear : List ℕ → SparseVolume
from_linear linear =
    let n = length linear / block_size in take_blocks linear n 0 (sparse_volume (pos n))

-- `memcpy` of one block into a vector, at `off`.
abbrev pub copy_block : List ℕ → ℕ → List ℕ → List ℕ
copy_block out off block = take off out ++ (take block_size block ++ drop (off + block_size) out)

-- The loop of `toLinear`.
unfoldable pub lay_blocks : Map (List ℕ) → List ℕ → List ℕ
lay_blocks [] out = out
lay_blocks ((lbn, block) ∷ held) out = lay_blocks held (copy_block out (lbn * block_size) block)

-- `toLinear`
unfoldable pub to_linear : SparseVolume → List ℕ
unfolding lay_blocks
to_linear v = lay_blocks v.held (replicate (v.blocks * block_size) 0)
