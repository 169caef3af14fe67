-- ===== src/Memory/Alloc/Placed.antt =====
-- Where an allocation places its secret, and what is left of it.
use native.Mathlib.Nat.{add-mul}
use open_sesame.Prelude.{
  ℕ, suc, ◌+◌, ◌-◌, ◌*◌, ◌^◌, ◌≤◌, ◌<◌, ◌≡◌, refl, sym, ◌∙◌, subst, inl, inr, false, some, List, [],
  ◌∷◌, length, replicate, length-replicate, ◌==◌, arith,
}
use open_sesame.Prelude.Text.{text_eq_refl}
use open_sesame.Memory.Bytes.{
  Memory, write_bytes, read_bytes, read_bytes-write_bytes, read_bytes-apart,
}
use open_sesame.Memory.Alloc.{
  Os, AllocResult, refused, allocated, ProtectedAlloc, fill_region, initial, lay_out, wrapping_sub,
  new, copy_in, from_slice, as_bytes, write_mut, drop,
}
use open_sesame.Memory.Alloc.Layout.{
  pages_of, region_of, total_of, lay_out-allocated, region_of-fits, wrapping_sub_lem,
}

-- The secret is between the canary and the last guard page, without a gap on either side; both are
-- where they were written, and the rest of the mapping is less than a page and the four others.
pub record IsPlaced (os : Os) (bytes : List ℕ) (a : ProtectedAlloc) : Type 0 where
  pub read : as_bytes a ≡ bytes
  pub len : a.user_data_len ≡ length bytes
  pub canary : read_bytes a.canary_ptr 16 a.memory ≡ os.canary
  pub after_canary : a.canary_ptr + 16 ≡ a.user_data
  pub region : a.data_region ≡ 3 * os.page
  pub inside : a.data_region ≤ a.canary_ptr
  pub before_guard : a.user_data + length bytes ≡ a.data_region + a.data_region_len
  pub tight : a.data_region_len < 16 + length bytes + os.page
  pub total : a.mmap_total ≡ a.data_region + a.data_region_len + os.page

total_of_lem : (os : Os) (len : ℕ) → total_of os len ≡ 3 * os.page + region_of os len + os.page
total_of_lem os len = add-mul 4 (pages_of os len) os.page ∙ omega arith

fill_region-canary :
    (os : Os) (start user_data : ℕ) (bytes : List ℕ) (m : Memory)
    → length os.canary ≡ 16
    → start + 16 ≤ user_data
    → read_bytes
        (user_data - 16)
        16
        (write_bytes user_data bytes (fill_region os start (user_data - 16) m))
      ≡ os.canary
fill_region-canary os start user_data bytes m sized room =
    let padding : List ℕ = replicate (user_data - 16 - start) 219 in
    let padded : length padding ≡ user_data - 16 - start =
      length-replicate (user_data - 16 - start) 219 in
    read_bytes-apart (user_data - 16) 16 user_data bytes (fill_region os start (user_data - 16) m)
      (inl (omega arith))
    ∙ (read_bytes-apart (user_data - 16) 16 start padding (write_bytes (user_data - 16) os.canary m)
          (inr (omega arith))
        ∙ subst
            (λ n.
              read_bytes (user_data - 16) n (write_bytes (user_data - 16) os.canary m) ≡ os.canary)
            sized (read_bytes-write_bytes (user_data - 16) os.canary m))

module _ (os : Os) (bytes : List ℕ) (sized : length os.canary ≡ 16) where
  initial-IsPlaced :
      (mmap_total data_pages region : ℕ)
      → 16 + length bytes ≤ region
      → region < 16 + length bytes + os.page
      → region < 2 ^ 64
      → mmap_total ≡ 3 * os.page + region + os.page
      → IsPlaced os bytes (write_mut bytes (initial os mmap_total (length bytes) data_pages region))
  initial-IsPlaced mmap_total data_pages region room tight fits total =
      let e : wrapping_sub region (length bytes) ≡ region - length bytes =
        wrapping_sub_lem region (length bytes) (omega arith) fits in
      record {
        read = read_bytes-write_bytes (3 * os.page + wrapping_sub region (length bytes)) bytes _;
        len = refl;
        canary =
            fill_region-canary os (3 * os.page) (3 * os.page + wrapping_sub region (length bytes))
              bytes _ sized (omega arith);
        after_canary = omega arith;
        region = refl;
        inside = omega arith;
        before_guard = omega arith;
        tight = tight;
        total = total;
      }

copied-IsPlaced :
    (os : Os) (b : ℕ) (bytes : List ℕ) (a : ProtectedAlloc)
    → 0 < os.page
    → length os.canary ≡ 16
    → 16 + length (b ∷ bytes) + os.page ≤ 2 ^ 64
    → lay_out os (length (b ∷ bytes)) ≡ allocated a
    → IsPlaced os (b ∷ bytes) (write_mut (b ∷ bytes) a)
copied-IsPlaced os b bytes a positive sized small h =
    let (fits, same) = lay_out-allocated os (length (b ∷ bytes)) a h in
    let (room, tight) = region_of-fits os (length (b ∷ bytes)) positive small in
    subst (λ x. IsPlaced os (b ∷ bytes) (write_mut (b ∷ bytes) x)) same
      (initial-IsPlaced os (b ∷ bytes) sized (total_of os (length (b ∷ bytes)))
        (pages_of os (length (b ∷ bytes))) (region_of os (length (b ∷ bytes))) room tight fits
        (total_of_lem os (length (b ∷ bytes))))

copy_in-allocated :
    (os : Os) (b : ℕ) (bytes : List ℕ) (r : AllocResult) (a : ProtectedAlloc)
    → ((x : ProtectedAlloc) → r ≡ allocated x → IsPlaced os (b ∷ bytes) (write_mut (b ∷ bytes) x))
    → copy_in (b ∷ bytes) r ≡ allocated a
    → IsPlaced os (b ∷ bytes) a
copy_in-allocated os b bytes (refused e) a placed h = cc
copy_in-allocated os b bytes (allocated x) a placed h =
    let same : write_mut (b ∷ bytes) x ≡ a = allocated-injective h in
    subst (IsPlaced os (b ∷ bytes)) same (placed x refl)
  where
    allocated-injective : {x y : ProtectedAlloc} → allocated x ≡ allocated y → x ≡ y
    allocated-injective h = cc

suc_apart : (n : ℕ) → (suc n == 0) ≡ false
suc_apart n = ground arith

-- If a secret is allocated whose length leaves room for a page and a canary below the limit of a word,
-- it is read back; the canary stands right before it and a guard page follows right after it, with no
-- byte between; and the data region has less than a page to spare.
pub from_slice-IsPlaced :
    (os : Os) (bytes : List ℕ) (a : ProtectedAlloc)
    → 0 < os.page
    → length os.canary ≡ 16
    → 16 + length bytes + os.page ≤ 2 ^ 64
    → from_slice os bytes ≡ allocated a
    → IsPlaced os bytes a
unfolding from_slice new
from_slice-IsPlaced os [] a positive sized small h = cc
from_slice-IsPlaced os (b ∷ bytes) a positive sized small h =
    copy_in-allocated os b bytes (lay_out os (length (b ∷ bytes))) a
      (λ x laid_out. copied-IsPlaced os b bytes x positive sized small laid_out)
      (rw (suc_apart (length bytes)) at h)

abbrev pub wiped : Os → ProtectedAlloc → Memory
wiped os a =
    write_bytes os.page (replicate os.page 0)
      (write_bytes a.data_region (replicate a.data_region_len 0) a.memory)

-- An allocation that holds a secret in its place may be given another one of that length, and is then
-- dropped without an abort, its whole data region set to zero.
pub drop-wiped :
    (os : Os) (bytes other : List ℕ) (a : ProtectedAlloc)
    → IsPlaced os bytes a
    → length other ≡ length bytes
    → IsPlaced os other (write_mut other a)
      × (drop os (write_mut other a) ≡ some (wiped os (write_mut other a)))
      × (read_bytes a.data_region a.data_region_len (wiped os (write_mut other a))
          ≡ replicate a.data_region_len 0)
unfolding drop
drop-wiped os bytes other a placed same = (rewritten, dropped, zeroed)
  where
    canary_kept : read_bytes a.canary_ptr 16 (write_bytes a.user_data other a.memory) ≡ os.canary
    canary_kept =
        let adjacent = placed.after_canary in
        read_bytes-apart a.canary_ptr 16 a.user_data other a.memory (inl (omega arith))
        ∙ placed.canary

    rewritten : IsPlaced os other (write_mut other a)
    rewritten = record {
      read =
          subst (λ n. read_bytes a.user_data n (write_bytes a.user_data other a.memory) ≡ other)
            (same ∙ sym placed.len) (read_bytes-write_bytes a.user_data other a.memory);
      len = placed.len ∙ sym same;
      canary = canary_kept;
      after_canary = placed.after_canary;
      region = placed.region;
      inside = placed.inside;
      before_guard = let ends = placed.before_guard in omega arith;
      tight = let limit = placed.tight in omega arith;
      total = placed.total;
    }

    dropped : drop os (write_mut other a) ≡ some (wiped os (write_mut other a))
    dropped = rw (canary_kept, text_eq_refl os.canary) refl

    zeros : (n : ℕ) → List ℕ
    zeros n = replicate n 0

    zeros-length : (n : ℕ) → length (zeros n) ≡ n
    zeros-length n = length-replicate n 0

    zeroed :
        read_bytes a.data_region a.data_region_len (wiped os (write_mut other a))
        ≡ replicate a.data_region_len 0
    zeroed =
        let region = placed.region in
        let page_zeros = zeros-length os.page in
        read_bytes-apart a.data_region a.data_region_len os.page (replicate os.page 0) _
          (inr (omega arith))
        ∙ subst
            (λ n.
              read_bytes a.data_region n (
                write_bytes a.data_region (replicate a.data_region_len 0)
                  (write_mut other a).memory)
              ≡ replicate a.data_region_len 0)
            (zeros-length a.data_region_len)
            (read_bytes-write_bytes a.data_region (replicate a.data_region_len 0)
              (write_mut other a).memory)
