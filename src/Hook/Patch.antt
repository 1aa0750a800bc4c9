-- ===== src/Hook/Patch.antt =====
-- What a hook does to the code: `HookFuncImpl` and `Hook` of src/lib/hook/nx64/hook_impl.cpp.
use zeldar.Base.{
  Option, Bool, false, none, ℕ, ◌+◌, ◌*◌, ◌%◌, ◌^◌, ◌≤◌, ◌<◌, ◌≡◌, ◌≢◌, ◌⊎◌, refl, ap₂, ◌∙◌, false,
  List, [], ◌∷◌, arith, some, if◌then◌else◌, length, add64, ◌==◌,
}
use zeldar.Virtmem.{Virtmem}
use zeldar.Hook.Context.{trampoline_size}
use zeldar.Hook.Fix.Literal.{words_at}
use zeldar.Hook.Install.{Pager, ctrl_size, hook_max, Trampoline, store_words}
use zeldar.Hook.Served.{IsServed}
use zeldar.Hook.Jumps.{IsCode, patch_words}

-- Words outside the run that is stored stay.
pub store_words-outside :
    (ws : List ℕ) (a b : ℕ) (load : ℕ → ℕ)
    → a + 4 * length ws ≤ 2 ^ 64
    → (b < a) ⊎ (a + 4 * length ws ≤ b)
    → store_words a ws load b ≡ load b
unfolding store_words
store_words-outside [] a b load fits out = refl
store_words-outside (w ∷ ws) a b load fits out =
    let kept : (if b == a then w else load b) ≡ load b = ground arith in
    store_words-outside ws (add64 a 4) b (λ c. if c == a then w else load c) (omega arith)
      (ground arith)
    ∙ kept

-- The words that are stored are there.
pub words_at-store_words :
    (ws : List ℕ) (a : ℕ) (load : ℕ → ℕ)
    → a + 4 * length ws ≤ 2 ^ 64
    → words_at (store_words a ws load) (length ws) a ≡ ws
unfolding store_words words_at
words_at-store_words [] a load fits = refl
words_at-store_words (w ∷ ws) a load fits =
    let load' : ℕ → ℕ = λ c. if c == a then w else load c in
    let first : (if a == a then w else load a) ≡ w = ground arith in
    ap₂ (λ x xs. x ∷ xs)
      (store_words-outside ws (add64 a 4) a load' (omega arith) (ground arith) ∙ first)
      (words_at-store_words ws (add64 a 4) load' (omega arith))

pub ctrl_size_lem :
    (symbol replace : ℕ) → (0 < ctrl_size symbol replace) × (ctrl_size symbol replace ≤ 20)
unfolding ctrl_size
ctrl_size_lem symbol replace = ground arith

-- The trampoline, if there is one, is at an address of code.
IsAligned : Option Trampoline → Type 0
IsAligned none = Unit
IsAligned (some t) = t.rx % 4 ≡ 0

-- The slot with the index `next`, and the trampoline and the next index of a hook.
unfoldable pub slot : (ro rw_view next : ℕ) → Trampoline
slot ro rw_view next = record {
  rx = add64 ro (next * (trampoline_size * 4));
  rw = add64 rw_view (next * (trampoline_size * 4));
}

unfoldable pub slot_of : (ro rw_view next : ℕ) → Bool → Option Trampoline × ℕ
unfolding slot
slot_of ro rw_view next do_trampoline =
    if do_trampoline then (some (slot ro rw_view next), next + 1) else (none, next)

module _ (k : Pager) (v : Virtmem) (hs : List ℕ) (load : ℕ → ℕ)
    (ro rw_view next symbol callback : ℕ)
    (served : IsServed k v hs symbol (ctrl_size symbol callback)) (next_lt : next < hook_max)
    (aligned : ro % 4 ≡ 0) (symbol_IsCode : IsCode symbol) (callback_IsCode : IsCode callback)
    (symbol_ne : symbol ≢ 0) (callback_ne : callback ≢ 0) (below : symbol + 0x2020 < 2 ^ 64)
    (one_page : symbol % 0x1000 + ctrl_size symbol callback ≤ 0x1000) where
  code_after : ℕ → ℕ
  code_after = store_words symbol (patch_words symbol callback) load
