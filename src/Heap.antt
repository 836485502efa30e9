-- ===== src/Heap.antt =====
-- The kernel heap, kernel/memory/heap.cpp and include/memory/heap.hpp: segment headers at addresses,
-- doubly linked, and the functions that split, join, find and free them. What `DEBUG_HEAP`
-- prints is left out, but not what it allocates for that; the pages that are mapped for the heap are kept as a list of addresses.
pub mod Chain
pub mod Combine
pub mod Split
pub mod Find
pub mod Expand
pub mod Malloc
pub mod Debug
pub mod Free
pub mod Blocks
pub mod Coalesce
pub mod Live
pub mod Reach
mod Tests
use eterna.Base.{
  ℕ, zero, suc, ◌+◌, ◌-◌, ◌*◌, ◌/◌, ◌%◌, Bool, true, false, not, Option, none, some, List, [], ◌∷◌,
  leb, ltb, length, ◌==◌, if◌then◌else◌, add64, sub64, mul64,
}
use eterna.Pmm.{page_size}

pub record Header : Type 0 where
  pub last : ℕ
  pub next : ℕ
  pub length : ℕ
  pub free : Bool

-- The structure is packed: three words and a byte.
abbrev pub header_size : ℕ
header_size = 25

-- `sHeapStart`, `sHeapEnd`, `sLastHeader`, the headers in memory, and the virtual pages that were
-- given to `Memory::map`, the latest first. A null pointer is 0.
pub record Heap : Type 0 where
  pub mem : ℕ → Header
  pub heap_start : ℕ
  pub heap_end : ℕ
  pub last_header : ℕ
  pub mapped : List ℕ

unfoldable pub write : (ℕ → Header) → ℕ → Header → ℕ → Header
write m p h q = if p == q then h else m q

abbrev pub store : Heap → ℕ → Header → Heap
store h p x = record h { mem = write h.mem p x }

unfoldable pub combine_forward : Heap → ℕ → Heap
combine_forward h this =
    let next = (h.mem this).next in
    if next == 0
    then h
    else if not (h.mem next).free
    then h
    else let h₁ = if next == h.last_header then record h { last_header = this } else h in
      let next_next = (h₁.mem next).next in
      let h₂ =
        if next_next == 0
        then h₁
        else store h₁ next_next (record (h₁.mem next_next) { last = this }) in
      let seg = h₂.mem this in
      store h₂ this (record seg {
        length = add64 (add64 seg.length (h₂.mem seg.next).length) header_size;
        next = (h₂.mem seg.next).next;
      })

unfoldable pub combine_backward : Heap → ℕ → Heap
combine_backward h this =
    let last = (h.mem this).last in
    if last == 0 then h else if not (h.mem last).free then h else combine_forward h last

-- The pointer writes of `split`, once its guards have passed: the header at `this` keeps
-- `split_length` bytes, and the one at `split_header` gets `rest`.
unfoldable pub insert_header : Heap → ℕ → ℕ → ℕ → ℕ → Heap
insert_header h this split_header split_length rest =
    let next = (h.mem this).next in
    let h₁ =
      if next == 0
      then record (store h split_header (record (h.mem split_header) { next = 0 })) {
        last_header = split_header;
      }
      else let relinked = store h next (record (h.mem next) { last = split_header }) in
        store relinked split_header (record (relinked.mem split_header) { next = next }) in
    let h₂ = store h₁ this (record (h₁.mem this) { next = split_header; length = split_length }) in
    store h₂ split_header
      (record (h₂.mem split_header) { last = this; length = rest; free = (h₂.mem this).free })

-- `none` is the `nullptr` of a segment that is not split; otherwise `this` is returned.
unfoldable pub split : Heap → ℕ → ℕ → Option Heap
split h this split_length =
    let length = (h.mem this).length in
    let rest = sub64 (sub64 length split_length) header_size in
    if ltb length (add64 split_length header_size)
    then none
    else if ltb split_length 8
    then none
    else if ltb rest 8
    then none
    else some (insert_header h this (add64 (add64 this header_size) split_length) split_length rest)

abbrev pub set_free : Heap → ℕ → Bool → Heap
set_free h p b = store h p (record (h.mem p) { free = b })

-- One round of the loop of `malloc`: the heap after the segment at `current` was taken, if it was.
unfoldable pub try_segment : ℕ → Heap → ℕ → Option Heap
try_segment num_bytes h current =
    let seg = h.mem current in
    if not seg.free
    then none
    else if ltb num_bytes seg.length
    then elim (split h current num_bytes) [
      | none ↦ none
      | some h' ↦ some (set_free h' current false)
    ]
    else if seg.length == num_bytes
    then some (set_free h current false)
    else none

pub data Found : Type 0 where
  taken : ℕ → Heap → Found
  none_fits out_of_rounds : Found

-- The loop, on `rounds`: the pointer that is returned and the heap, if a segment was taken.
unfoldable pub find : ℕ → ℕ → Heap → ℕ → Found
find zero num_bytes h current = out_of_rounds
find (suc rounds) num_bytes h current = elim (try_segment num_bytes h current) [
  | some h' ↦ taken (add64 current header_size) h'
  | none ↦
      let rest = find rounds num_bytes h (h.mem current).next in
      if (h.mem current).next == 0 then none_fits else rest
]

unfoldable pub map_loop : ℕ → Heap → Heap
map_loop zero h = h
map_loop (suc left) h =
    map_loop left
      (record h { heap_end = add64 h.heap_end page_size; mapped = h.heap_end ∷ h.mapped })

-- The pointer writes of `expand_heap`, after the pages are mapped.
unfoldable pub append_header : Heap → ℕ → ℕ → Heap
append_header h extension num_bytes =
    let h₁ = store h extension (record (h.mem extension) { free = true; last = h.last_header }) in
    let h₂ = store h₁ h₁.last_header (record (h₁.mem h₁.last_header) { next = extension }) in
    let h₃ = record h₂ { last_header = extension } in
    store h₃ extension
      (record (h₃.mem extension) { next = 0; length = sub64 num_bytes header_size })

unfoldable pub expand_heap : Heap → ℕ → Heap
expand_heap h num_bytes =
    let num_pages = num_bytes / page_size + 1 in
    let extension = h.heap_end in
    combine_backward (append_header (map_loop num_pages h) extension (mul64 num_pages page_size))
      extension

-- The rounding to a multiple of 8.
unfoldable pub round_up : ℕ → ℕ
round_up num_bytes =
    if ltb 0 (num_bytes % 8) then add64 (num_bytes - num_bytes % 8) 8 else num_bytes

-- A pointer and the heap; a null pointer; no more attempts; or a null pointer from `request_page`, in place of which
-- `map` takes the page at address 0, so that the new part of the heap lies on foreign memory.
pub data Block : Type 0 where
  block : ℕ → Heap → Block
  null exhausted unbacked : Block

-- Whether `DEBUG_HEAP` is defined, as it is in heap.cpp, and how many pages `request_page` gives to the heap in all.
pub record Build : Type 0 where
  pub debug_heap : Bool
  pub pages : ℕ

-- The characters of the chart that `heap_print_debug_starchart` allocates, one for each 64 bytes of heap.
unfoldable pub total_chars : Heap → ℕ
total_chars h = sub64 h.heap_end h.heap_start / 64 + 1

-- `heap_print_debug` once the chart has been allocated or not. Its text and the copy of it are left out, since
-- the allocation does not return.
unfoldable pub heap_print_debug : ℕ → Block → Block
heap_print_debug address (block chart h) = block address h
heap_print_debug address null = null
heap_print_debug address exhausted = exhausted
heap_print_debug address unbacked = unbacked

-- `malloc` calls itself after it has expanded the heap, and with `DEBUG_HEAP` also from `heap_print_debug` once it
-- has taken a segment: `attempts` bounds the depth of these calls, `rounds` each search.
unfoldable pub malloc : Build → ℕ → ℕ → Heap → ℕ → Block
malloc build zero rounds h num_bytes = exhausted
malloc build (suc attempts) rounds h num_bytes =
    let wanted = round_up num_bytes in
    let again = malloc build attempts rounds (expand_heap h wanted) wanted in
    if num_bytes == 0 then null else elim (find rounds wanted h h.heap_start) [
      | taken address h' ↦
          let printed =
            heap_print_debug address (malloc build attempts rounds h' (total_chars h')) in
          if build.debug_heap then printed else block address h'
      | none_fits ↦
          if leb (length h.mapped + (wanted / page_size + 1)) build.pages then again else unbacked
      | out_of_rounds ↦ exhausted
    ]

unfoldable pub free : Heap → ℕ → Heap
free h address =
    let segment = sub64 address header_size in
    combine_backward (combine_forward (set_free h segment true) segment) segment

abbrev pub heap_virtual_base : ℕ
heap_virtual_base = 0xffffffffff000000

abbrev pub heap_initial_pages : ℕ
heap_initial_pages = 1

-- The pages of `init_heap`, from byte `i` on.
unfoldable pub init_map_loop : ℕ → ℕ → List ℕ → List ℕ
init_map_loop zero i mapped = mapped
init_map_loop (suc left) i mapped =
    init_map_loop left (i + page_size) (add64 heap_virtual_base i ∷ mapped)

unfoldable pub init_heap : Heap → Heap
init_heap h =
    let num_bytes = heap_initial_pages * page_size in
    record {
      mem =
          write h.mem heap_virtual_base
            (record { last = 0; next = 0; length = num_bytes - header_size; free = true });
      heap_start = heap_virtual_base;
      heap_end = add64 heap_virtual_base num_bytes;
      last_header = heap_virtual_base;
      mapped = init_map_loop heap_initial_pages 0 h.mapped;
    }
