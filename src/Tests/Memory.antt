-- ===== src/Tests/Memory.antt =====
-- Tests of the allocations for secrets, and instances of their theorems.
use open_sesame.Prelude.{◌≡◌, refl, true, none, some, [], ◌∷◌, replicate, List, ℕ, arith}
use open_sesame.Memory.Bytes.{read_bytes}
use open_sesame.Memory.Alloc.{
  Os, ProtectedAlloc, allocated, initial, new, from_slice, write_mut, drop,
}
use open_sesame.Memory.Alloc.Placed.{IsPlaced, from_slice-IsPlaced, wiped, drop-wiped}

-- A machine with small pages.
abbrev os : Os
os = record {
  page = 32;
  canary = replicate 16 9;
  has_memfd_secret = true;
  mmap = λ _. none;
  mprotect = λ _. none;
  mlock = none;
}

abbrev secret : List ℕ
secret = 1 ∷ 2 ∷ 3 ∷ []

abbrev secret_alloc : ProtectedAlloc
secret_alloc = write_mut secret (initial os 160 3 1 32)

made : from_slice os secret ≡ allocated secret_alloc
unfolding from_slice new
made = refl

padded : read_bytes secret_alloc.data_region 13 secret_alloc.memory ≡ replicate 13 219
padded = refl

placed : IsPlaced os secret secret_alloc
placed = from_slice-IsPlaced os secret secret_alloc (omega arith) refl (omega arith) made

from_slice-IsPlaced_example : IsPlaced os secret secret_alloc
from_slice-IsPlaced_example =
    from_slice-IsPlaced os secret secret_alloc (omega arith) refl (omega arith) made

abbrev other : List ℕ
other = 4 ∷ 5 ∷ 6 ∷ []

drop-wiped_example :
    IsPlaced os other (write_mut other secret_alloc)
    × (drop os (write_mut other secret_alloc) ≡ some (wiped os (write_mut other secret_alloc)))
    × (read_bytes 96 32 (wiped os (write_mut other secret_alloc)) ≡ replicate 32 0)
drop-wiped_example = drop-wiped os secret other secret_alloc placed refl
