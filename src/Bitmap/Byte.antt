-- ===== src/Bitmap/Byte.antt =====
-- Reading and writing one bit of a byte, checked over all bytes and places.
use eterna.Base.{
  ℕ, ◌<◌, ◌≡◌, refl, Bool, true, false, ◌&&◌, arith, ltb, ◌==◌, if◌then◌else◌, Bool-cases, inl, inr,
}
use eterna.Base.Table.{each_below, each_below_lem, same_bool, same_bool→eq}
use eterna.Bitmap.{byte_test, byte_write}

abbrev agrees : Bool → ℕ → ℕ → ℕ → Bool
agrees value byte k j =
    same_bool (byte_test (byte_write byte k value) j) (if k == j then value else byte_test byte j)

abbrev bytes : (ℕ → ℕ → ℕ → Bool) → Bool
bytes p = each_below (λ byte. each_below (λ k. each_below (p byte k) 8) 8) 256

agrees_set : bytes (agrees true) ≡ true
unfolding each_below byte_test byte_write
agrees_set = refl

agrees_clear : bytes (agrees false) ≡ true
unfolding each_below byte_test byte_write
agrees_clear = refl

stays_byte : bytes (λ byte k j. ltb (byte_write byte k (j == 0)) 256) ≡ true
unfolding each_below byte_write
stays_byte = refl

at_bytes :
    (p : ℕ → ℕ → ℕ → Bool) (byte k j : ℕ)
    → bytes p ≡ true
    → byte < 256
    → k < 8
    → j < 8
    → p byte k j ≡ true
at_bytes p byte k j h hb hk hj =
    let of_byte = each_below_lem (λ b. each_below (λ i. each_below (p b i) 8) 8) 256 h byte hb in
    each_below_lem (p byte k) 8 (each_below_lem (λ i. each_below (p byte i) 8) 8 of_byte k hk) j hj

pub byte_test-byte_write :
    (byte k j : ℕ) (value : Bool)
    → byte < 256
    → k < 8
    → j < 8
    → byte_test (byte_write byte k value) j ≡ (if k == j then value else byte_test byte j)
byte_test-byte_write byte k j true hb hk hj =
    same_bool→eq _ _ (at_bytes (agrees true) byte k j agrees_set hb hk hj)
byte_test-byte_write byte k j false hb hk hj =
    same_bool→eq _ _ (at_bytes (agrees false) byte k j agrees_clear hb hk hj)

pub byte_write-lt : (byte k : ℕ) (value : Bool) → byte < 256 → k < 8 → byte_write byte k value < 256
byte_write-lt byte k true hb hk =
    eterna.Base.ltb→lt _ _ (at_bytes _ byte k 0 stays_byte hb hk (omega arith))
byte_write-lt byte k false hb hk =
    eterna.Base.ltb→lt _ _ (at_bytes _ byte k 1 stays_byte hb hk (omega arith))

pub byte_test-zero : (k : ℕ) → k < 8 → byte_test 0 k ≡ false
unfolding each_below byte_test
byte_test-zero k h =
    same_bool→eq _ _ (each_below_lem (λ i. same_bool (byte_test 0 i) false) 8 refl k h)
