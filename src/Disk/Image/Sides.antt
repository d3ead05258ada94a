-- ===== src/Disk/Image/Sides.antt =====
-- Splitting a double-sided image of src/disk/src/Image.cpp into its sides, and merging them.
use ms.Base.{
  ℕ, zero, suc, ◌+◌, ◌-◌, ◌*◌, ◌/◌, ◌%◌, ◌<◌, ◌≤◌, ◌≡◌, ◌≢◌, inl, inr, Bool-cases, le→leb, lt→ltb,
  ltb→lt, lt→leb_false, le→ltb_false, ltb_false→le, ==→eq, ==_false→ne, refl, ap, ◌∙◌, arith, ◌==◌,
  ltb, leb, ◌&&◌, if◌then◌else◌, Bytes,
}
use ms.Disk.Image.{copy_n, split_track, split_tracks}

-- Where byte `i` of a side lies in the image of both.
abbrev pub on_side : ℕ → ℕ → ℕ
on_side side i = i / 5120 * 10240 + side * 5120 + i % 5120

past : (q t i : ℕ) → q ≢ t → q ≡ i / 5120 → t * 5120 ≤ i → t * 5120 + 5120 ≤ i
past q t i n e h = omega arith

pub none_done : (t k x y : ℕ) → y ≡ (if leb t k && ltb k (t + 0) then x else y)
none_done t k x y = ground arith

pub one_done :
    (t left k x y w : ℕ)
    → w ≡ (if k == t then x else y)
    → (if leb (t + 1) k && ltb k (t + 1 + left) then x else w)
      ≡ (if leb t k && ltb k (t + suc left) then x else y)
one_done t left k x y w e = ground arith

pub copy_n-in :
    (src dst : Bytes) (from n at i j : ℕ)
    → at ≤ i
    → i < at + n
    → from + (i - at) ≡ j
    → copy_n src from n dst at i ≡ src j
copy_n-in src dst from n at i j h h' e = rw (le→leb at i h) (rw (lt→ltb i (at + n) h') (ap src e))

pub copy_n-before :
    (src dst : Bytes) (from n at i : ℕ) → i < at → copy_n src from n dst at i ≡ dst i
copy_n-before src dst from n at i h = rw (lt→leb_false at i h) refl

pub copy_n-after :
    (src dst : Bytes) (from n at i : ℕ) → at + n ≤ i → copy_n src from n dst at i ≡ dst i
copy_n-after src dst from n at i h =
    rw (le→leb at i (omega arith)) (rw (le→ltb_false i (at + n) h) refl)

-- A copy of track `t` to its place on a side.
track_lem :
    (src dst : Bytes) (from t i j : ℕ)
    → (i / 5120 ≡ t → from + (i - t * 5120) ≡ j)
    → copy_n src from 5120 dst (t * 5120) i ≡ (if i / 5120 == t then src j else dst i)
track_lem src dst from t i j e = elim (Bool-cases (i / 5120 == t)) [
  | inl h ↦ rw h (
      let q = ==→eq (i / 5120) t h in
      copy_n-in src dst from 5120 (t * 5120) i j (omega arith) (omega arith) (e q))
  | inr h ↦ rw h (elim (Bool-cases (ltb i (t * 5120))) [
    | inl b ↦ copy_n-before src dst from 5120 (t * 5120) i (ltb→lt i (t * 5120) b)
    | inr b ↦
        copy_n-after src dst from 5120 (t * 5120) i
          (past (i / 5120) t i (==_false→ne (i / 5120) t h) refl (ltb_false→le i (t * 5120) b))
  ])
]

split_track-side :
    (ds s0 s1 : Bytes) (t i : ℕ)
    → ((split_track ds t (s0, s1)).0 i ≡ (if i / 5120 == t then ds (on_side 0 i) else s0 i))
      × ((split_track ds t (s0, s1)).1 i ≡ (if i / 5120 == t then ds (on_side 1 i) else s1 i))
unfolding split_track
split_track-side ds s0 s1 t i = (
  track_lem ds s0 (t * 2 * 5120) t i (on_side 0 i) (λ e. omega arith),
  track_lem ds s1 (t * 2 * 5120 + 5120) t i (on_side 1 i) (λ e. omega arith),
)

pub split_tracks-side :
    (ds : Bytes) (left t : ℕ) (s : Bytes × Bytes) (i : ℕ)
    → ((split_tracks ds left t s).0 i
        ≡ (if leb t (i / 5120) && ltb (i / 5120) (t + left) then ds (on_side 0 i) else (s.0) i))
      × ((split_tracks ds left t s).1 i
          ≡ (if leb t (i / 5120) && ltb (i / 5120) (t + left) then ds (on_side 1 i) else (s.1) i))
unfolding split_tracks
split_tracks-side ds zero t s i = (none_done t (i / 5120) _ _, none_done t (i / 5120) _ _)
split_tracks-side ds (suc left) t (s0, s1) i =
    let s' = split_track ds t (s0, s1) in
    let (e0, e1) = split_tracks-side ds left (t + 1) s' i in
    let (f0, f1) = split_track-side ds s0 s1 t i in
    (
      e0 ∙ one_done t left (i / 5120) (ds (on_side 0 i)) (s0 i) (s'.0 i) f0,
      e1 ∙ one_done t left (i / 5120) (ds (on_side 1 i)) (s1 i) (s'.1 i) f1,
    )
