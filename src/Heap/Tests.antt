-- ===== src/Heap/Tests.antt =====
-- The heap at concrete values: three segments on one page at 0x10000, the middle one in use.
use eterna.Base.{ℕ, ◌+◌, ◌≡◌, refl, true, false, ◌==◌, if◌then◌else◌, List, [], ◌∷◌, arith}
use eterna.Heap.{Heap, header_size, round_up, malloc, free, init_heap, init_map_loop}
use eterna.Heap.Chain.{Seg, seg, IsHeap}
use eterna.Heap.Malloc.{quiet, Gives, malloc-Gives, place}
use eterna.Heap.Blocks.{blocks}
use eterna.Heap.Coalesce.{head_free}
use eterna.Heap.Reach.{
  HasRoom, Client, Reach, booted, then_calls, releases, take_up, give_back, Reach-Live,
  Reach-allocates, Reach-give_back,
}
use eterna.Heap.Debug.{debugging, Lost, malloc-Lost}
use eterna.Heap.Live.{Live, free-Live}

abbrev three : List Seg
three = seg 64 true ∷ seg 103 false ∷ seg 3854 true ∷ []

abbrev sample : Heap
sample = record {
  mem = λ p.
      if p == 0x10000
      then record { last = 0; next = 0x10059; length = 64; free = true }
      else if p == 0x10059
      then record { last = 0x10000; next = 0x100d9; length = 103; free = false }
      else record { last = 0x10059; next = 0; length = 3854; free = true };
  heap_start = 0x10000;
  heap_end = 0x11000;
  last_header = 0x100d9;
  mapped = 0x10000 ∷ [];
}

sample-IsHeap : IsHeap sample three
sample-IsHeap = record {
  chain = (refl, (refl, (refl, tt)));
  ends = refl;
  last = refl;
  some_segment = omega arith;
  not_null = omega arith;
  bound = omega arith;
}

sample-Live : Live sample ((0x10072, 103) ∷ [])
unfolding blocks head_free
sample-Live = record {
  segments = three;
  well_formed = sample-IsHeap;
  coalesced = (refl, (refl, (refl, tt)));
  live = refl;
}

free-Live_example : Live (free sample 0x10072) []
free-Live_example = free-Live sample [] 0x10072 103 [] sample-Live

malloc-Gives_example :
    Gives 0x10000 (place 2 (round_up 64) 0x10000 three) (malloc (quiet 16) 3 10 sample 64)
unfolding round_up
malloc-Gives_example =
    malloc-Gives 16 10 64 sample (seg 64 true) (seg 103 false ∷ seg 3854 true ∷ []) (omega arith)
      (omega arith) sample-IsHeap (omega arith) (ground arith) (ground arith)

-- The first call behind `init_heap`, of 100 bytes.
first_room : HasRoom 16 (init_heap sample) 100
unfolding init_heap init_map_loop round_up
first_room = (omega arith, omega arith, ground arith, ground arith)

Reach-allocates_example :
    (address : ℕ) × (h' : Heap) × Reach 16 sample
      (record { heap = h'; held = take_up address (round_up 100) [] })
Reach-allocates_example =
    Reach-allocates {c = record { heap = init_heap sample; held = [] }} 100 booted first_room

abbrev after_first :
    (address : ℕ) × (h' : Heap) × Reach 16 sample
      (record { heap = h'; held = take_up address (round_up 100) [] })
after_first =
    Reach-allocates {c = record { heap = init_heap sample; held = [] }} 100 booted first_room

Reach-Live_example : Live after_first.1 (take_up after_first.0 (round_up 100) [])
Reach-Live_example = Reach-Live after_first.2

abbrev released : Client
released = record {
  heap = free after_first.1 after_first.0;
  held = give_back after_first.0 (take_up after_first.0 (round_up 100) []);
}

released-Reach : Reach 16 sample released
released-Reach = then_calls after_first.2 (releases after_first.0 (ground arith) refl)

released_nothing : released.held ≡ []
released_nothing = ground arith

Reach-give_back_example :
    (n : ℕ) × IsHeap released.heap (seg n true ∷ [])
    × (released.heap.heap_start + header_size + n ≡ released.heap.heap_end)
Reach-give_back_example = Reach-give_back released-Reach released_nothing

malloc-Lost_example : Lost (malloc (debugging 16) 5 10 sample 100)
malloc-Lost_example = malloc-Lost 16 5 10 sample 100 (omega arith) (omega arith)
