-- ===== src/Memory/Alloc/Layout.antt =====
-- How an allocation is laid out when it succeeds.
use native.Mathlib.Nat.{mod-eq_of_lt, add-mod_right, div-mul-le_self, lt-div-mul-add, mul-div_left}
use open_sesame.Prelude.{
  ℕ, ◌+◌, ◌-◌, ◌*◌, ◌/◌, ◌%◌, ◌^◌, ◌≤◌, ◌<◌, ◌≡◌, ap, ◌∙◌, inl, inr, Bool, true, false, Bool-cases,
  Option, none, some, ltb, ltb→lt, if◌then◌else◌, arith,
}
use open_sesame.Prelude.Text.{Text, codes}
use open_sesame.Memory.Alloc.{
  Os, AllocResult, refused, allocated, overflow, mprotect_failed, mmap_failed, ProtectedAlloc,
  checked, protect, lock_result, lock_memory, init_region, initial, map_region, with_total,
  with_region, with_needed, lay_out, round_up, wrapping_sub,
}

checked-allocated :
    (n : ℕ) (rest : ℕ → AllocResult) (a : ProtectedAlloc)
    → checked n rest ≡ allocated a
    → (n < 2 ^ 64) × (rest n ≡ allocated a)
checked-allocated n rest a h = elim (Bool-cases (ltb n (2 ^ 64))) [
  | inl fits ↦ (ltb→lt n (2 ^ 64) fits, (rw fits at h))
  | inr over ↦ let e : refused overflow ≡ allocated a = (rw over at h) in cc
]

protect-allocated :
    (os : Os) (which : Text) (rest : AllocResult) (a : ProtectedAlloc)
    → protect os which rest ≡ allocated a
    → rest ≡ allocated a
protect-allocated os which rest a h = by_error (os.mprotect which) h
  where
    by_error :
        (o : Option ℕ)
        → elim o [ none ↦ rest | some errno ↦ refused (mprotect_failed errno which) ] ≡ allocated a
        → rest ≡ allocated a
    by_error none h = h
    by_error (some errno) h = cc

lock_memory-allocated :
    (os : Os) (rest : AllocResult) (a : ProtectedAlloc)
    → lock_memory os rest ≡ allocated a
    → rest ≡ allocated a
lock_memory-allocated os rest a h = by_backing os.has_memfd_secret os.mlock h
  where
    by_backing :
        (secret : Bool) (o : Option ℕ)
        → (if secret then rest else lock_result o rest) ≡ allocated a
        → rest ≡ allocated a
    by_backing true o h = h
    by_backing false none h = h
    by_backing false (some errno) h = ground arith

map_region-allocated :
    (os : Os) (mmap_total user_len data_pages data_region_len : ℕ) (a : ProtectedAlloc)
    → map_region os mmap_total user_len data_pages data_region_len ≡ allocated a
    → initial os mmap_total user_len data_pages data_region_len ≡ a
map_region-allocated os mmap_total user_len data_pages data_region_len a h =
    by_map (os.mmap mmap_total) h
  where
    by_map :
        (o : Option ℕ)
        → elim o [
          | none ↦ init_region os mmap_total user_len data_pages data_region_len
          | some errno ↦ refused (mmap_failed errno)
        ]
          ≡ allocated a
        → initial os mmap_total user_len data_pages data_region_len ≡ a
    by_map (some errno) h = cc
    by_map none h =
        let locked : lock_memory os
              (allocated (initial os mmap_total user_len data_pages data_region_len))
            ≡ allocated a =
          protect-allocated os (codes "metadata_ro") _ a (
            protect-allocated os (codes "guard2") _ a (
              protect-allocated os (codes "guard1") _ a
                (protect-allocated os (codes "guard0") _ a h))) in
        let done : allocated (initial os mmap_total user_len data_pages data_region_len)
            ≡ allocated a =
          lock_memory-allocated os _ a locked in
        cc

abbrev pub pages_of : Os → ℕ → ℕ
pages_of os len = round_up (16 + len) os.page / os.page

abbrev pub region_of : Os → ℕ → ℕ
region_of os len = pages_of os len * os.page

abbrev pub total_of : Os → ℕ → ℕ
total_of os len = (4 + pages_of os len) * os.page

pub lay_out-allocated :
    (os : Os) (len : ℕ) (a : ProtectedAlloc)
    → lay_out os len ≡ allocated a
    → (region_of os len < 2 ^ 64)
      × (initial os (total_of os len) len (pages_of os len) (region_of os len) ≡ a)
lay_out-allocated os len a h =
    let (_, region) = checked-allocated (16 + len) (with_needed os len) a h in
    let (fits, total_pages) =
      checked-allocated (region_of os len) (with_region os len (pages_of os len)) a region in
    let (_, total) =
      checked-allocated (4 + pages_of os len)
        (with_total os len (pages_of os len) (region_of os len)) a total_pages in
    let (_, mapped) =
      checked-allocated (total_of os len)
        (λ mmap_total. map_region os mmap_total len (pages_of os len) (region_of os len)) a total in
    (
      fits,
      map_region-allocated os (total_of os len) len (pages_of os len) (region_of os len) a mapped,
    )

pub region_of-fits :
    (os : Os) (len : ℕ)
    → 0 < os.page
    → 16 + len + os.page ≤ 2 ^ 64
    → (16 + len ≤ region_of os len) × (region_of os len < 16 + len + os.page)
region_of-fits os len positive small =
    let m : ℕ = 16 + len + os.page - 1 in
    let unwrapped : m % 2 ^ 64 ≡ m = mod-eq_of_lt (omega arith) in
    let pages : pages_of os len ≡ m / os.page =
      ap (λ n. n / os.page * os.page / os.page) unwrapped ∙ mul-div_left (m / os.page) positive in
    let above : m < m / os.page * os.page + os.page = lt-div-mul-add positive in
    let below : m / os.page * os.page ≤ m = div-mul-le_self m os.page in
    rw pages (omega arith, omega arith)

pub wrapping_sub_lem : (a b : ℕ) → b ≤ a → a < 2 ^ 64 → wrapping_sub a b ≡ a - b
wrapping_sub_lem a b h small =
    let e : a + 2 ^ 64 - b ≡ a - b + 2 ^ 64 = omega arith in
    ap (λ n. n % 2 ^ 64) e ∙ (add-mod_right (a - b) (2 ^ 64) ∙ mod-eq_of_lt (omega arith))
