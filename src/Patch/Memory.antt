-- ===== src/Patch/Memory.antt =====
-- What a write to the memory of src/lib/patch changes.
use zeldar.Base.{ℕ, ◌≤◌, ◌<◌, ◌^◌, ◌≡◌, ◌≢◌, refl, ◌∙◌, arith, List, [], ◌∷◌, length, add64, sub64}
use zeldar.Patch.{store_byte, store_bytes, load_bytes}

store_byte_self : (a b : ℕ) (memory : ℕ → ℕ) → store_byte a b memory a ≡ b
unfolding store_byte
store_byte_self a b memory = ground arith

store_byte_ne : (a b x : ℕ) (memory : ℕ → ℕ) → x ≢ a → store_byte a b memory x ≡ memory x
unfolding store_byte
store_byte_ne a b x memory h = ground arith

-- A write leaves the bytes before it and behind it.
pub store_bytes_outside :
    (a : ℕ) (bs : List ℕ) (x : ℕ) (memory : ℕ → ℕ)
    → a < 2 ^ 64
    → length bs ≤ sub64 x a
    → store_bytes a bs memory x ≡ memory x
unfolding store_bytes
store_bytes_outside a [] x memory h far = refl
store_bytes_outside a (b ∷ bs) x memory h far =
    store_bytes_outside (add64 a 1) bs x (store_byte a b memory) (omega arith) (omega arith)
    ∙ store_byte_ne a b x memory (λ e. omega arith)

cons_lem : {x y : ℕ} {xs ys : List ℕ} → x ≡ y → xs ≡ ys → x ∷ xs ≡ y ∷ ys
cons_lem h k = cc

-- A value that is read back where it was written.
pub load_bytes-store_bytes :
    (a : ℕ) (bs : List ℕ) (memory : ℕ → ℕ)
    → a < 2 ^ 64
    → length bs ≤ 2 ^ 64
    → load_bytes (length bs) a (store_bytes a bs memory) ≡ bs
unfolding store_bytes load_bytes
load_bytes-store_bytes a [] memory h fits = refl
load_bytes-store_bytes a (b ∷ bs) memory h fits =
    cons_lem
      (store_bytes_outside (add64 a 1) bs a (store_byte a b memory) (omega arith) (omega arith)
        ∙ store_byte_self a b memory)
      (load_bytes-store_bytes (add64 a 1) bs (store_byte a b memory) (omega arith) (omega arith))
