-- ===== src/Heap/Debug.antt =====
-- With `DEBUG_HEAP`, as it is defined in kernel/memory/heap.cpp, `malloc` does not return what it has taken.
use eterna.Base.{
  ℕ, zero, suc, ◌+◌, ◌/◌, ◌≤◌, ◌<◌, ◌^◌, ◌≡◌, ◌⊎◌, inl, inr, refl, true, false, arith, length, leb,
  ◌==◌, if◌then◌else◌, Bool-cases,
}
use eterna.Pmm.{page_size}
use eterna.Heap.{
  Heap, Found, taken, none_fits, out_of_rounds, find, expand_heap, round_up, Block, exhausted,
  unbacked, Build, total_chars, heap_print_debug, malloc,
}

-- The build of the source.
abbrev pub debugging : ℕ → Build
debugging pages = record { debug_heap = true; pages = pages }

-- No block: the calls are deeper than any number of attempts, or there are no pages any more.
abbrev pub Lost : Block → Type 0
Lost b = (b ≡ exhausted) ⊎ (b ≡ unbacked)

heap_print_debug-Lost : (address : ℕ) (b : Block) → Lost b → Lost (heap_print_debug address b)
unfolding heap_print_debug
heap_print_debug-Lost address b (inl e) = rw e (inl refl)
heap_print_debug-Lost address b (inr e) = rw e (inr refl)

chart-size : (h : Heap) → (0 < total_chars h) × (total_chars h ≤ 2 ^ 63)
unfolding total_chars
chart-size h = ground arith

rounded-size : (n : ℕ) → 0 < n → n ≤ 2 ^ 63 → (0 < round_up n) × (round_up n ≤ 2 ^ 63)
unfolding round_up
rounded-size n pos small = ground arith

search-Lost :
    (r : Found) (pages attempts rounds : ℕ) (h : Heap) (wanted : ℕ)
    → ((h' : Heap) (k : ℕ)
        → 0 < k
        → k ≤ 2 ^ 63
        → Lost (malloc (debugging pages) attempts rounds h' k))
    → 0 < wanted
    → wanted ≤ 2 ^ 63
    → Lost (elim r as (λ x. Block) [
      | taken address h' ↦
          heap_print_debug address (malloc (debugging pages) attempts rounds h' (total_chars h'))
      | none_fits ↦
          if leb (length h.mapped + (wanted / page_size + 1)) pages
          then malloc (debugging pages) attempts rounds (expand_heap h wanted) wanted
          else unbacked
      | out_of_rounds ↦ exhausted
    ])
search-Lost (taken address h') pages attempts rounds h wanted ih pos small =
    let (some_size, size) = chart-size h' in
    heap_print_debug-Lost address _ (ih h' (total_chars h') some_size size)
search-Lost none_fits pages attempts rounds h wanted ih pos small =
    elim (Bool-cases (leb (length h.mapped + (wanted / page_size + 1)) pages)) [
      | inl backed ↦ rw backed (ih (expand_heap h wanted) wanted pos small)
      | inr bare ↦ rw bare (inr refl)
    ]
search-Lost out_of_rounds pages attempts rounds h wanted ih pos small = inl refl

-- Whatever number of attempts and rounds is given, in any heap, no call of `malloc` for 1 to 2 ^ 63 bytes returns a pointer, null
-- or not: the calls it makes through `heap_print_debug` go on without end, or there are no pages any more.
pub malloc-Lost :
    (pages attempts rounds : ℕ) (h : Heap) (n : ℕ)
    → 0 < n
    → n ≤ 2 ^ 63
    → Lost (malloc (debugging pages) attempts rounds h n)
unfolding malloc
malloc-Lost pages zero rounds h n pos small = inl refl
malloc-Lost pages (suc attempts) rounds h n pos small =
    let not_zero : (n == 0) ≡ false = ground arith in
    let (pos', small') = rounded-size n pos small in
    rw not_zero (
      search-Lost (find rounds (round_up n) h h.heap_start) pages attempts rounds h (round_up n)
        (λ h' k pos small. malloc-Lost pages attempts rounds h' k pos small) pos' small')
