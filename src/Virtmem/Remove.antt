-- ===== src/Virtmem/Remove.antt =====
-- `virtmemRemoveReservation` of src/lib/nx/kernel/virtmem.c on the doubly linked list.
use mathlib.Core.Path.{subst}
use zeldar.Base.{
  ℕ, ◌≡◌, ◌≢◌, refl, ap, ◌∙◌, sym, true, false, Bool-cases, inl, inr, ◌==◌, List, [], ◌∷◌, ◌++◌,
  if◌then◌else◌,
}
use zeldar.Virtmem.{VirtmemReservation, Virtmem, set_prev, set_next, virtmem_remove_reservation}
use zeldar.Virtmem.Chain.{
  IsFresh, IsChain, store_node-IsChain, set_prev-head_IsChain, head_ne, is_null-false,
  store_node_self, store_node_ne,
}

IsFresh-append : (a rv : ℕ) (xs ys : List ℕ) → IsFresh a (xs ++ rv ∷ ys) → IsFresh a (xs ++ ys)
unfolding IsFresh
IsFresh-append a rv [] ys (ne, fresh) = fresh
IsFresh-append a rv (x ∷ xs) ys (ne, fresh) = (ne, IsFresh-append a rv xs ys fresh)

cons-IsChain :
    (nodes : ℕ → VirtmemReservation) (prev head x n : ℕ) (hs : List ℕ)
    → head ≡ x
    → x ≢ 0
    → IsFresh x hs
    → (nodes x).prev ≡ prev
    → (nodes x).next ≡ n
    → IsChain nodes x n hs
    → IsChain nodes prev head (x ∷ hs)
unfolding IsChain
cons-IsChain nodes prev head x n hs at ne fresh back next chain =
    (at, ne, fresh, back, rw next chain)

module _ (nodes : ℕ → VirtmemReservation) (rv : ℕ) where
  -- The list after the first write, and after both.
  abbrev unlinked : ℕ → VirtmemReservation
  unlinked = if (nodes rv).next == 0 then nodes else set_prev (nodes rv).next (nodes rv).prev nodes

  abbrev removed : ℕ → VirtmemReservation
  removed = set_next (nodes rv).prev (nodes rv).next unlinked

  unlinked_ne : (a : ℕ) → a ≢ (nodes rv).next → unlinked a ≡ nodes a
  unlinked_ne a ne = elim (Bool-cases ((nodes rv).next == 0)) [
    | inl e ↦ rw e refl
    | inr e ↦ rw e (store_node_ne (nodes rv).next a _ nodes ne)
  ]

  linked-IsChain :
      (prev h : ℕ) (ys : List ℕ)
      → (nodes rv).prev ≡ prev
      → IsChain nodes rv (nodes rv).next (h ∷ ys)
      → IsChain unlinked prev (nodes rv).next (h ∷ ys)
  linked-IsChain prev h ys back chain =
      rw (is_null-false (nodes rv).next (head_ne nodes rv (nodes rv).next h ys chain), back)
        (set_prev-head_IsChain prev nodes rv (nodes rv).next h ys chain)

  -- What follows the reservation is linked to what precedes it.
  unlinked-IsChain :
      (prev head : ℕ) (ys : List ℕ)
      → IsChain nodes prev head (rv ∷ ys)
      → (head ≡ rv) × ((nodes rv).prev ≡ prev) × IsChain unlinked prev (nodes rv).next ys
  unfolding IsChain
  unlinked-IsChain prev head [] (at, ne, once, back, last) = (at, back, last)
  unlinked-IsChain prev head (h ∷ ys) (at, ne, once, back, chain) =
      (at, back, linked-IsChain prev h ys back chain)

  -- A reservation that comes before is neither the one before nor the one behind.
  next_ne :
      (a prev head : ℕ) (xs ys : List ℕ)
      → a ≢ 0
      → IsFresh a (xs ++ rv ∷ ys)
      → IsChain nodes prev head (xs ++ rv ∷ ys)
      → a ≢ (nodes rv).next
  unfolding IsChain IsFresh
  next_ne a prev head [] [] ne0 fresh (at, ne, once, back, last) = λ e. ne0 (e ∙ last)
  next_ne a prev head [] (h ∷ ys) ne0 (_, (ne_h, _)) (at, ne, once, back, (at', _, _, _, _)) =
      λ e. ne_h (e ∙ at')
  next_ne a prev head (x ∷ xs) ys ne0 (_, fresh) (at, ne, once, back, chain) =
      next_ne a x (nodes x).next xs ys ne0 fresh chain

  prev_ne :
      (a x prev head : ℕ) (xs ys : List ℕ)
      → IsFresh a (x ∷ xs ++ rv ∷ ys)
      → IsChain nodes prev head (x ∷ (xs ++ rv ∷ ys))
      → a ≢ (nodes rv).prev
  unfolding IsChain IsFresh
  prev_ne a x prev head [] ys (ne_x, _) (at, ne, once, back, (at', ne', once', back', _)) =
      λ e. ne_x (e ∙ back')
  prev_ne a x prev head (x' ∷ xs) ys (_, fresh) (at, ne, once, back, chain) =
      prev_ne a x' x (nodes x).next xs ys fresh chain

  prev_not_null :
      (x prev head : ℕ) (xs ys : List ℕ)
      → IsChain nodes prev head (x ∷ (xs ++ rv ∷ ys))
      → (nodes rv).prev ≢ 0
  unfolding IsChain
  prev_not_null x prev head [] ys (at, ne, once, back, (_, _, _, back', _)) =
      λ e. ne (sym back' ∙ e)
  prev_not_null x prev head (x' ∷ xs) ys (at, ne, once, back, chain) =
      prev_not_null x' x (nodes x).next xs ys chain

  removed_kept : (a : ℕ) → a ≢ (nodes rv).next → a ≢ (nodes rv).prev → removed a ≡ nodes a
  removed_kept a ne ne' = store_node_ne (nodes rv).prev a _ unlinked ne' ∙ unlinked_ne a ne

  removed_at :
      (a : ℕ) → (nodes rv).prev ≡ a → removed a ≡ record (unlinked a) { next = (nodes rv).next }
  removed_at a e =
      subst (λ b. removed b ≡ record (unlinked b) { next = (nodes rv).next }) e
        (store_node_self (nodes rv).prev
          (record (unlinked (nodes rv).prev) { next = (nodes rv).next }) unlinked)

  -- Without the reservation the list is linked past it, when another one precedes it.
  removed-IsChain :
      (x prev head : ℕ) (xs ys : List ℕ)
      → IsChain nodes prev head (x ∷ (xs ++ rv ∷ ys))
      → IsChain removed prev head (x ∷ (xs ++ ys))
  unfolding IsChain IsFresh
  removed-IsChain x prev head [] ys (at, ne, (ne_rv, fresh), back, chain) =
      let (_, before, rest) = unlinked-IsChain x (nodes x).next ys chain in
      let at_x : removed x ≡ record (unlinked x) { next = (nodes rv).next } = removed_at x before in
      let prev_kept : (removed x).prev ≡ (nodes x).prev =
        ap (λ n. n.prev) at_x
        ∙ ap (λ n. n.prev)
            (unlinked_ne x (next_ne x x (nodes x).next [] ys ne (ne_rv, fresh) chain)) in
      cons-IsChain removed prev head x (nodes rv).next ys at ne fresh (prev_kept ∙ back)
        (ap (λ n. n.next) at_x)
        (subst (λ a. IsChain (set_next a (nodes rv).next unlinked) x (nodes rv).next ys)
          (sym before)
          (store_node-IsChain x (record (unlinked x) { next = (nodes rv).next }) unlinked x
            (nodes rv).next ys fresh rest))
  removed-IsChain x prev head (x' ∷ xs) ys (at, ne, fresh, back, chain) =
      let kept =
        removed_kept x (next_ne x x (nodes x).next (x' ∷ xs) ys ne fresh chain)
          (prev_ne x x' x (nodes x).next xs ys fresh chain) in
      cons-IsChain removed prev head x (nodes x).next (x' ∷ (xs ++ ys)) at ne
        (IsFresh-append x rv (x' ∷ xs) ys fresh) (ap (λ n. n.prev) kept ∙ back)
        (ap (λ n. n.next) kept) (removed-IsChain x' x (nodes x).next xs ys chain)

-- Removing a reservation of a well-linked list, wherever it stands, leaves the list without it, well
-- linked in both directions.
pub virtmem_remove_reservation-IsChain :
    (v : Virtmem) (rv : ℕ) (xs ys : List ℕ)
    → IsChain v.nodes 0 v.reservations (xs ++ rv ∷ ys)
    → let v' = virtmem_remove_reservation rv v in IsChain v'.nodes 0 v'.reservations (xs ++ ys)
unfolding virtmem_remove_reservation
virtmem_remove_reservation-IsChain v rv [] ys chain =
    let (at, before, rest) = unlinked-IsChain v.nodes rv 0 v.reservations ys chain in
    let first : ((v.nodes rv).prev == 0) ≡ true = rw before refl in rw first rest
virtmem_remove_reservation-IsChain v rv (x ∷ xs) ys chain =
    let second : ((v.nodes rv).prev == 0) ≡ false =
      is_null-false (v.nodes rv).prev
        (λ e. prev_not_null v.nodes rv x 0 v.reservations xs ys chain e) in
    rw second (removed-IsChain v.nodes rv x 0 v.reservations xs ys chain)
