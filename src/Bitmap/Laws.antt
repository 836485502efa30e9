-- ===== src/Bitmap/Laws.antt =====
-- The bitmap as a function from indices to bits.
use eterna.Base.{
  ℕ, zero, suc, ◌+◌, ◌*◌, ◌/◌, ◌%◌, ◌≤◌, ◌<◌, ◌≡◌, ◌≢◌, refl, Bool, true, false, ◌&&◌, List, [],
  ◌∷◌, arith, leb, ltb, ◌==◌, if◌then◌else◌, get_or, set as list_set, length as list_length,
  replicate, length-set, length-replicate, ap,
}
use eterna.Bitmap.{Bitmap, init, get, set, byte_write}
use eterna.Bitmap.Byte.{byte_test-byte_write, byte_write-lt, byte_test-zero}

-- The buffer holds `size` bytes.
pub record IsValid (bm : Bitmap) : Type 0 where
  pub sized : list_length bm.buffer ≡ bm.size
  pub bytes : (i : ℕ) → get_or bm.buffer i 0 < 256

get_or-set :
    (xs : List ℕ) (i j v : ℕ)
    → i < list_length xs
    → get_or (list_set xs i v) j 0 ≡ (if i == j then v else get_or xs j 0)
get_or-set [] i j v h = absurd (omega arith)
get_or-set (x ∷ xs) zero zero v h = refl
get_or-set (x ∷ xs) zero (suc j) v h = ground arith
get_or-set (x ∷ xs) (suc i) zero v h = ground arith
get_or-set (x ∷ xs) (suc i) (suc j) v h = ground (arith, get_or-set xs i j v)

get_or-replicate : (n i : ℕ) → ◌≡◌ {A = ℕ} (get_or (replicate n 0) i 0) 0
get_or-replicate zero i = refl
get_or-replicate (suc n) zero = refl
get_or-replicate (suc n) (suc i) = get_or-replicate n i

pub init-IsValid : (size address : ℕ) → IsValid (init size address)
unfolding init
init-IsValid size address = record {
  sized = length-replicate size 0;
  bytes = λ i. omega (arith, get_or-replicate size i);
}

-- A fresh bitmap has every bit clear.
pub get-init : (size address i : ℕ) → get (init size address) i ≡ false
unfolding init get
get-init size address i = ground (arith, get_or-replicate size (i / 8), byte_test-zero (i % 8))

pub get-out : (bm : Bitmap) (i : ℕ) → bm.size * 8 ≤ i → get bm i ≡ false
unfolding get
get-out bm i h = ground arith

module _ {bm : Bitmap} (v : IsValid bm) (i : ℕ) (value : Bool) where
  pub set-IsValid : IsValid (set bm i value).0
  unfolding set
  set-IsValid = elim (eterna.Base.Bool-cases (leb bm.size (i / 8))) [
    | eterna.Base.inl out ↦ rw out v
    | eterna.Base.inr in_range ↦ rw in_range (record {
      sized = rw length-set v.sized;
      bytes = λ j. ground (
        arith,
        v.sized,
        v.bytes j,
        v.bytes (i / 8),
        get_or-set bm.buffer (i / 8) j (byte_write (get_or bm.buffer (i / 8) 0) (i % 8) value),
        byte_write-lt (get_or bm.buffer (i / 8) 0) (i % 8) value,
      );
    })
  ]

  -- `set` writes its bit and no other; out of range it writes nothing.
  pub get-set :
      (j : ℕ)
      → get (set bm i value).0 j ≡ (if ltb i (bm.size * 8) && i == j then value else get bm j)
  unfolding set get
  get-set j =
      let byte = get_or bm.buffer (i / 8) 0 in
      ground (
        arith,
        v.sized,
        v.bytes (i / 8),
        get_or-set bm.buffer (i / 8) (j / 8) (byte_write byte (i % 8) value),
        byte_test-byte_write byte (i % 8) (j % 8) value,
      )

pub size-set : (bm : Bitmap) (i : ℕ) (value : Bool) → (set bm i value).0.size ≡ bm.size
unfolding set
size-set bm i value = ground arith

-- `set` reports whether its index is in range.
pub set_done : (bm : Bitmap) (i : ℕ) (value : Bool) → (set bm i value).1 ≡ ltb i (bm.size * 8)
unfolding set
set_done bm i value = ground arith
