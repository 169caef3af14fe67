-- ===== src/Memory/Alloc.antt =====
-- core-memory/src/alloc.rs: an allocation for a secret, its layout and its canary.
pub mod Layout
pub mod Placed
use open_sesame.Prelude.{
  ℕ, zero, suc, ◌+◌, ◌-◌, ◌*◌, ◌/◌, ◌%◌, ◌^◌, Bool, true, false, not, Option, none, some, List, [],
  ◌∷◌, ◌++◌, length, replicate, ltb, ◌==◌, if◌then◌else◌,
}
use open_sesame.Prelude.Text.{Text, codes, text_eq}
use open_sesame.Memory.Bytes.{Memory, write_bytes, read_bytes}

-- An overflow of `checked_add` or `checked_mul` is a panic, which ends the call.
pub data AllocError : Type 0 where
  zero_size overflow : AllocError
  mmap_failed : ℕ → AllocError
  mprotect_failed : ℕ → Text → AllocError

-- Pointers are offsets from the start of the mapping.
pub record ProtectedAlloc : Type 0 where
  pub mmap_total : ℕ
  pub user_data : ℕ
  pub user_data_len : ℕ
  pub data_region : ℕ
  pub data_region_len : ℕ
  pub canary_ptr : ℕ
  pub is_secret_mem : Bool
  pub memory : Memory

pub data AllocResult : Type 0 where
  refused : AllocError → AllocResult
  allocated : ProtectedAlloc → AllocResult

-- The page size and the canary of the process, whether the kernel has secret memory, the mapping or
-- its error number, the error of each change of protection, and that of the lock.
pub record Os : Type 0 where
  pub page : ℕ
  pub canary : List ℕ
  pub has_memfd_secret : Bool
  pub mmap : ℕ → Option ℕ
  pub mprotect : Text → Option ℕ
  pub mlock : Option ℕ

-- The mask rounds down to a multiple of a power of two; the sum wraps in a release build.
abbrev pub round_up : ℕ → ℕ → ℕ
round_up n align = (n + align - 1) % 2 ^ 64 / align * align

-- A difference of two `usize`, which wraps in a release build.
abbrev pub wrapping_sub : ℕ → ℕ → ℕ
wrapping_sub a b = (a + 2 ^ 64 - b) % 2 ^ 64

abbrev pub checked : ℕ → (ℕ → AllocResult) → AllocResult
checked n rest = let result = rest n in if ltb n (2 ^ 64) then result else refused overflow

abbrev pub protect : Os → Text → AllocResult → AllocResult
protect os which rest = elim (os.mprotect which) [
  | none ↦ rest
  | some errno ↦ refused (mprotect_failed errno which)
]

-- A `u64` in little-endian order.
abbrev u64_bytes : ℕ → ℕ → List ℕ
u64_bytes zero n = []
u64_bytes (suc k) n = n % 256 ∷ u64_bytes k (n / 256)

abbrev pub metadata : Os → ℕ → ℕ → ℕ → ℕ → List ℕ
metadata os mmap_total user_len data_pages data_region_len =
    u64_bytes 8 mmap_total
    ++ (u64_bytes 8 (3 * os.page)
        ++ (u64_bytes 8 (3 * os.page + wrapping_sub data_region_len user_len)
            ++ (u64_bytes 8 user_len ++ (u64_bytes 8 data_pages ++ os.canary))))

-- The canary, and the padding before it.
abbrev pub fill_region : Os → ℕ → ℕ → Memory → Memory
fill_region os data_start canary_ptr m =
    write_bytes data_start (replicate (canary_ptr - data_start) 219)
      (write_bytes canary_ptr os.canary m)

-- Only a lock that fails for want of memory is let pass, 12 being `ENOMEM`.
abbrev pub lock_result : Option ℕ → AllocResult → AllocResult
lock_result none rest = rest
lock_result (some errno) rest = if errno == 12 then rest else refused (mmap_failed errno)

abbrev pub lock_memory : Os → AllocResult → AllocResult
lock_memory os rest = if os.has_memfd_secret then rest else lock_result os.mlock rest

-- The mapping once it is set up.
abbrev pub initial : Os → ℕ → ℕ → ℕ → ℕ → ProtectedAlloc
initial os mmap_total user_len data_pages data_region_len =
    let data_start = 3 * os.page in
    let user_data = data_start + wrapping_sub data_region_len user_len in
    let canary_ptr = user_data - 16 in
    let zeros : Memory = λ i. 0 in
    record {
      mmap_total = mmap_total;
      user_data = user_data;
      user_data_len = user_len;
      data_region = data_start;
      data_region_len = data_region_len;
      canary_ptr = canary_ptr;
      is_secret_mem = os.has_memfd_secret;
      memory =
          fill_region os data_start canary_ptr (
            write_bytes os.page (metadata os mmap_total user_len data_pages data_region_len) zeros);
    }

abbrev pub init_region : Os → ℕ → ℕ → ℕ → ℕ → AllocResult
init_region os mmap_total user_len data_pages data_region_len = protect os (codes "guard0") (
    protect os (codes "guard1") (
      protect os (codes "guard2") (
        protect os (codes "metadata_ro") (
          lock_memory os (allocated (initial os mmap_total user_len data_pages data_region_len))))))

abbrev pub map_region : Os → ℕ → ℕ → ℕ → ℕ → AllocResult
map_region os mmap_total user_len data_pages data_region_len = elim (os.mmap mmap_total) [
  | none ↦ init_region os mmap_total user_len data_pages data_region_len
  | some errno ↦ refused (mmap_failed errno)
]

abbrev pub with_total : Os → ℕ → ℕ → ℕ → ℕ → AllocResult
with_total os len data_pages data_region_len total_pages =
    checked (total_pages * os.page)
      (λ mmap_total. map_region os mmap_total len data_pages data_region_len)

abbrev pub with_region : Os → ℕ → ℕ → ℕ → AllocResult
with_region os len data_pages data_region_len =
    checked (4 + data_pages) (with_total os len data_pages data_region_len)

abbrev pub with_needed : Os → ℕ → ℕ → AllocResult
with_needed os len needed =
    let data_pages = round_up needed os.page / os.page in
    checked (data_pages * os.page) (with_region os len data_pages)

abbrev pub lay_out : Os → ℕ → AllocResult
lay_out os len = checked (16 + len) (with_needed os len)

unfoldable pub new : Os → ℕ → AllocResult
new os len = if len == 0 then refused zero_size else lay_out os len

abbrev pub copy_in : List ℕ → AllocResult → AllocResult
copy_in bytes (refused e) = refused e
copy_in bytes (allocated a) =
    allocated (record a { memory = write_bytes a.user_data bytes a.memory })

unfoldable pub from_slice : Os → List ℕ → AllocResult
unfolding new
from_slice os [] = refused zero_size
from_slice os (b ∷ bytes) = copy_in (b ∷ bytes) (new os (length (b ∷ bytes)))

abbrev from_slice_or_sentinel : Os → List ℕ → AllocResult
from_slice_or_sentinel os [] = from_slice os (0 ∷ [])
from_slice_or_sentinel os (b ∷ bytes) = from_slice os (b ∷ bytes)

abbrev pub as_bytes : ProtectedAlloc → List ℕ
as_bytes a = read_bytes a.user_data a.user_data_len a.memory

abbrev pub write_mut : List ℕ → ProtectedAlloc → ProtectedAlloc
write_mut bytes a = record a { memory = write_bytes a.user_data bytes a.memory }

-- What is left of the memory before it is given back; `none` is an abort. The comparison in constant
-- time tells whether all bytes are the same.
unfoldable pub drop : Os → ProtectedAlloc → Option Memory
drop os a =
    if not (text_eq (read_bytes a.canary_ptr 16 a.memory) os.canary)
    then none
    else some (
        write_bytes os.page (replicate os.page 0)
          (write_bytes a.data_region (replicate a.data_region_len 0) a.memory))
