-- ===== src/Pmm/OnePage.antt =====
-- `request_page`: the first free page at or after the cursor `FirstFreePage`.
use eterna.Base.{
  ℕ, zero, suc, ◌+◌, ◌-◌, ◌*◌, ◌/◌, ◌≤◌, ◌<◌, ◌≡◌, refl, true, false, arith, mul64, Bool-cases, inl,
  inr, ◌==◌, if◌then◌else◌,
}
use eterna.Pmm.{
  Pmm, Request, granted, refused, panicked, exhausted, page_size, lock_page, free_page,
  request_loop, request_page,
}
use eterna.Pmm.Pages.{
  IsValid, locked, locked-lock_page, lock_page-IsValid, locked-free_page, total-free_page,
  cursor-free_page,
}
use eterna.Pmm.Runs.{lock_page_takes}

abbrev at_cursor : Pmm → ℕ → Pmm
at_cursor s first = record s { first_free_page = first }

-- The page `p` is the lowest free one from the cursor of `s` on, and `t` differs from `s` by
-- holding it, with the cursor just past it.
pub record Takes (s t : Pmm) (p : ℕ) : Type 0 where
  pub from_cursor : s.first_free_page ≤ p
  pub present : p < s.total_pages
  pub free : locked s p ≡ false
  pub lowest : (q : ℕ) → s.first_free_page ≤ q → q < p → locked s q ≡ true
  pub holds : (q : ℕ) → locked t q ≡ (if p == q then true else locked s q)
  pub cursor : t.first_free_page ≡ p + 1
  pub counter : t.total_free_pages + 1 ≡ s.total_free_pages
  pub valid : IsValid t

-- No page from the cursor of `s` on is free, and `t` has the same bits and counters.
pub record HasNone (s t : Pmm) : Type 0 where
  pub none_free : (q : ℕ) → s.first_free_page ≤ q → q < s.total_pages → locked s q ≡ true
  pub same_map : t.page_map ≡ s.page_map
  pub same_counter : t.total_free_pages ≡ s.total_free_pages
  pub valid : IsValid t

abbrev pub OnePage : Pmm → Request × Pmm → Type 0
OnePage s (granted address, t) = (p : ℕ) × (address ≡ p * page_size) × Takes s t p
OnePage s (panicked, t) = HasNone s t
OnePage s (refused, t) = ⊥
OnePage s (exhausted, t) = ⊥

cursor-IsValid : (s : Pmm) (first : ℕ) → IsValid s → IsValid (at_cursor s first)
cursor-IsValid s first v = record {
  bitmap = v.bitmap;
  covered = v.covered;
  addressable = v.addressable;
  past_total = v.past_total;
  free_counted = v.free_counted;
  used_counted = v.used_counted;
}

-- One step of the cursor past a locked page.
OnePage-step :
    (s : Pmm) (r : Request × Pmm)
    → locked s s.first_free_page ≡ true
    → s.first_free_page < s.total_pages
    → OnePage (at_cursor s (s.first_free_page + 1)) r
    → OnePage s r
OnePage-step s (granted address, t) held below (p, e, takes) = (
  p,
  e,
  record {
    from_cursor = omega (arith, takes.from_cursor);
    present = takes.present;
    free = takes.free;
    lowest = λ q a b. ground (arith, takes.lowest q);
    holds = takes.holds;
    cursor = takes.cursor;
    counter = takes.counter;
    valid = takes.valid;
  },
)
OnePage-step s (panicked, t) held below has = record {
  none_free = λ q a b. ground (arith, has.none_free q);
  same_map = has.same_map;
  same_counter = has.same_counter;
  valid = has.valid;
}
OnePage-step s (refused, t) held below h = h
OnePage-step s (exhausted, t) held below h = h

-- The loop's last round: the page at the cursor is free.
cursor-Takes :
    (s : Pmm)
    → IsValid s
    → s.first_free_page < s.total_pages
    → locked s s.first_free_page ≡ false
    → let address = mul64 s.first_free_page page_size in
      (address ≡ s.first_free_page * page_size)
      × Takes s
          (at_cursor (lock_page s address) ((lock_page s address).first_free_page + 1))
          s.first_free_page
unfolding lock_page
cursor-Takes s v below free =
    let address = mul64 s.first_free_page page_size in
    let exact : address ≡ s.first_free_page * page_size = omega (arith, v.covered, v.addressable) in
    let page : address / page_size ≡ s.first_free_page = omega (arith, exact) in
    (
      exact,
      record {
        from_cursor = omega arith;
        present = below;
        free = free;
        lowest = λ q a b. absurd (omega arith);
        holds = λ q. ground (arith, locked-lock_page s address v.bitmap q, v.covered);
        cursor = ground arith;
        counter = (lock_page_takes s address v (omega arith) (rw page free)).0;
        valid = cursor-IsValid _ _ (lock_page-IsValid s address v (omega arith));
      },
    )

request_loop-OnePage :
    (left : ℕ) (s : Pmm)
    → IsValid s
    → left ≡ s.total_pages - s.first_free_page
    → OnePage s (request_loop left s)
unfolding request_loop
request_loop-OnePage zero s v e = record {
  none_free = λ q a b. absurd (omega arith);
  same_map = refl;
  same_counter = refl;
  valid = v;
}
request_loop-OnePage (suc left) s v e = elim (Bool-cases (locked s s.first_free_page)) [
  | inl held ↦ rw held (
      OnePage-step s _ held (omega arith) (
        request_loop-OnePage left (at_cursor s (s.first_free_page + 1)) (cursor-IsValid s _ v)
          (omega arith)))
  | inr free ↦
      let (exact, takes) = cursor-Takes s v (omega arith) free in
      rw free (s.first_free_page, exact, takes)
]

-- In a valid state `request_page` grants the lowest free page at or after the cursor, which is
-- then locked, with the cursor behind it and one page fewer in the free counter; it panics exactly
-- where there is none, and then bits and counter stay. Either way the state stays valid.
pub request_page-OnePage : (s : Pmm) → IsValid s → OnePage s (request_page s)
unfolding request_page
request_page-OnePage s v = request_loop-OnePage (s.total_pages - s.first_free_page) s v refl

-- What a request gives is read from the bits at or after the cursor alone.
request_loop_ext :
    (left : ℕ) (s u : Pmm)
    → u.first_free_page ≡ s.first_free_page
    → ((q : ℕ) → s.first_free_page ≤ q → locked u q ≡ locked s q)
    → (request_loop left u).0 ≡ (request_loop left s).0
unfolding request_loop
request_loop_ext zero s u e same = refl
request_loop_ext (suc left) s u e same = ground (
  arith,
  same s.first_free_page,
  request_loop_ext left (at_cursor s (s.first_free_page + 1)) (at_cursor u (u.first_free_page + 1))
      (omega arith) (λ q p. same q (omega arith)),
)

-- A page that is freed behind the cursor is never granted: the next request gives what it would
-- have given without the call of `free_page`.
pub request_page-free_page :
    (s : Pmm) (address : ℕ)
    → IsValid s
    → address / page_size < s.first_free_page
    → (request_page (free_page s address)).0 ≡ (request_page s).0
unfolding request_page
request_page-free_page s address v behind =
    simp (total-free_page s address, cursor-free_page s address)
      (request_loop_ext (s.total_pages - s.first_free_page) s (free_page s address)
        (cursor-free_page s address) (λ q p. ground (arith, locked-free_page s address v.bitmap q)))
