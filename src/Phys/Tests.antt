-- ===== src/Phys/Tests.antt =====
-- vm/phys.c on a segment of sixteen page frames, all of them allocated at first.
use elos.Base.{
  ℕ, ◌+◌, ◌≤◌, ◌≡◌, refl, true, inl, inr, Option, some, none, List, [], ◌∷◌, arith, ◌==◌,
  if◌then◌else◌, ◌&&◌, Bool-cases,
}
use elos.Phys.{
  Physeg, PagePtr, Page, Phys, pg_normal, pg_free, is_free, vm_page_alloc_order, vm_page_free,
}
use elos.Phys.Sum.{sum_to}
use elos.Phys.Blocks.{in_block, occurs, list_cover, cover}
use elos.Phys.Inv.{Inside}
use elos.Phys.Alloc.{IsValid, Allocates, vm_page_alloc_order-Allocates}
use elos.Phys.Merge.{Held, vm_page_free-frames}

abbrev segment : ℕ → Physeg
segment _ = record { start = 0; size = 16 }

abbrev used_page : Page
used_page = record { order = 0; state = pg_normal; flags = 0; pincnt = 0 }

abbrev free_page : Page
free_page = record used_page { state = pg_free }

abbrev frame : ℕ → PagePtr
frame i = record { seg = 0; idx = i }

abbrev taken : Phys
taken = record {
  pages = λ p. used_page;
  freelist = λ k. [];
  mem_free = 0;
  mem_total = 65536;
  threshold = 0;
}

nothing_free : (f : ℕ) → cover segment f taken.freelist ≡ 0
unfolding cover list_cover sum_to
nothing_free f = refl

taken-IsValid : IsValid segment taken
unfolding occurs
taken-IsValid = record {
  listed = λ p k. refl;
  all_inside = λ p h. absurd (ground arith);
  apart = λ f. omega (arith, nothing_free f);
}

one_block : (f a : ℕ) → in_block f a 0 ≤ 1
one_block f a = ground arith

frame-Held : Held segment taken (frame 6) 0
frame-Held = record {
  here = record { small = omega arith; aligned = refl; fits = omega arith };
  order = refl;
  used = refl;
  pincnt = refl;
  flags = refl;
  apart = λ f. omega (arith, nothing_free f, one_block f 6);
  room = refl;
}

vm_page_free-frames_example :
    (s' : Phys) × (vm_page_free segment (frame 6) taken ≡ some s')
    × IsValid segment s'
    × ((f : ℕ) → cover segment f s'.freelist ≡ cover segment f taken.freelist + in_block f 6 0)
    × (s'.mem_free ≡ 4096)
vm_page_free-frames_example = vm_page_free-frames segment taken (frame 6) 0 taken-IsValid frame-Held

-- the memory with this one page on its list
abbrev one_free : Phys
one_free = record taken {
  pages = λ p. if (p.seg == 0) && (p.idx == 6) then free_page else used_page;
  freelist = λ k. if k == 0 then frame 6 ∷ [] else [];
  mem_free = 4096;
}

-- Freeing the buddy of the page merges the two.
list_of : ℕ → Option Phys → List PagePtr
list_of k none = []
list_of k (some s) = s.freelist k

merged : list_of 1 (vm_page_free segment (frame 7) one_free) ≡ frame 6 ∷ []
unfolding list_of vm_page_free
merged = refl

left_over : list_of 0 (vm_page_free segment (frame 7) one_free) ≡ []
unfolding list_of vm_page_free
left_over = refl

one_free-Inside :
    (p : PagePtr) → is_free one_free p ≡ true → Inside segment p (one_free.pages p).order
one_free-Inside p h = elim (Bool-cases ((p.seg == 0) && (p.idx == 6))) [
  | inl hit ↦
      let i : p.idx ≡ 6 = ground arith in
      simp hit (record { small = omega arith; aligned = omega arith; fits = omega (arith, i) })
  | inr miss ↦ absurd (ground arith)
]

one_free-IsValid : IsValid segment one_free
unfolding occurs cover list_cover sum_to
one_free-IsValid = record {
  listed = λ p k. ground arith;
  all_inside = one_free-Inside;
  apart = λ f. ground arith;
}

vm_page_alloc_order-Allocates_example :
    Allocates segment one_free 0 (vm_page_alloc_order 0 one_free)
vm_page_alloc_order-Allocates_example =
    vm_page_alloc_order-Allocates segment one_free 0 one_free-IsValid
