-- ===== src/Virtmem/Chain.antt =====
-- The reservations of src/lib/nx/kernel/virtmem.c as a doubly linked list.
use zeldar.Base.{
  add64, ℕ, ◌≡◌, ◌≢◌, refl, ap, ◌∙◌, sym, arith, true, false, ◌==◌, List, [], ◌∷◌, if◌then◌else◌,
}
use zeldar.Virtmem.{
  MemRegion, VirtmemReservation, Virtmem, store_node, set_prev, virtmem_add_reservation,
}

-- `a` is none of the addresses.
unfoldable pub IsFresh : ℕ → List ℕ → Type 0
IsFresh a [] = Unit
IsFresh a (h ∷ hs) = (a ≢ h) × IsFresh a hs

-- From `head` on the reservations at the addresses `hs` follow each other, each with its
-- predecessor, no address twice, and the last one ends with the null pointer.
unfoldable pub IsChain : (ℕ → VirtmemReservation) → ℕ → ℕ → List ℕ → Type 0
IsChain nodes prev head [] = head ≡ 0
IsChain nodes prev head (h ∷ hs) =
    (head ≡ h)
    × (h ≢ 0)
    × IsFresh h hs
    × ((nodes h).prev ≡ prev)
    × IsChain nodes h (nodes h).next hs

-- A write outside the list leaves it.
pub store_node-IsChain :
    (a : ℕ) (node : VirtmemReservation) (nodes : ℕ → VirtmemReservation) (prev head : ℕ)
    (hs : List ℕ)
    → IsFresh a hs
    → IsChain nodes prev head hs
    → IsChain (store_node a node nodes) prev head hs
unfolding IsChain IsFresh
store_node-IsChain a node nodes prev head [] fresh chain = chain
store_node-IsChain a node nodes prev head (h ∷ hs) (ne, fresh) (at, ne0, once, back, chain) =
    let kept : (if h == a then node else nodes h) ≡ nodes h = ground arith in
    rw kept (at, ne0, once, back, store_node-IsChain a node nodes h (nodes h).next hs fresh chain)

-- A new predecessor for the first reservation.
set_prev-IsChain :
    (a : ℕ) (nodes : ℕ → VirtmemReservation) (prev : ℕ) (h : ℕ) (hs : List ℕ)
    → IsChain nodes prev h (h ∷ hs)
    → IsChain (set_prev h a nodes) a h (h ∷ hs)
unfolding IsChain
set_prev-IsChain a nodes prev h hs (at, ne0, once, back, chain) =
    let here : (if h == h then record (nodes h) { prev = a } else nodes h)
        ≡ record (nodes h) { prev = a } =
      ground arith in
    rw here (
      at,
      ne0,
      once,
      refl,
      store_node-IsChain h (record (nodes h) { prev = a }) nodes h (nodes h).next hs once chain,
    )

pub head_lem :
    (nodes : ℕ → VirtmemReservation) (prev head h : ℕ) (hs : List ℕ)
    → IsChain nodes prev head (h ∷ hs)
    → (head ≡ h) × IsChain nodes prev h (h ∷ hs)
unfolding IsChain
head_lem nodes prev head h hs (at, ne, once, back, chain) = (at, (refl, ne, once, back, chain))

pub set_prev-head_IsChain :
    (a : ℕ) (nodes : ℕ → VirtmemReservation) (prev head h : ℕ) (hs : List ℕ)
    → IsChain nodes prev head (h ∷ hs)
    → IsChain (set_prev head a nodes) a head (h ∷ hs)
set_prev-head_IsChain a nodes prev head h hs chain =
    let (at, chain') = head_lem nodes prev head h hs chain in
    rw at (set_prev-IsChain a nodes prev h hs chain')

pub head_ne :
    (nodes : ℕ → VirtmemReservation) (prev head h : ℕ) (hs : List ℕ)
    → IsChain nodes prev head (h ∷ hs)
    → head ≢ 0
unfolding IsChain
head_ne nodes prev head h hs (at, ne, once, back, chain) = λ e. ne (sym at ∙ e)

head_ne-IsFresh :
    (nodes : ℕ → VirtmemReservation) (prev head rv h : ℕ) (hs : List ℕ)
    → IsChain nodes prev head (h ∷ hs)
    → IsFresh rv (h ∷ hs)
    → rv ≢ head
unfolding IsChain IsFresh
head_ne-IsFresh nodes prev head rv h hs (at, ne0, once, back, chain) (ne, fresh) = λ e. ne (e ∙ at)

-- One reservation in front of a list.
front-IsChain :
    (nodes : ℕ → VirtmemReservation) (rv head : ℕ) (hs : List ℕ)
    → rv ≢ 0
    → IsFresh rv hs
    → (nodes rv).prev ≡ 0
    → (nodes rv).next ≡ head
    → IsChain nodes rv head hs
    → IsChain nodes 0 rv (rv ∷ hs)
unfolding IsChain
front-IsChain nodes rv head hs ne fresh back next chain = (refl, ne, fresh, back, rw next chain)

pub store_node_self :
    (a : ℕ) (node : VirtmemReservation) (nodes : ℕ → VirtmemReservation)
    → store_node a node nodes a ≡ node
store_node_self a node nodes = ground arith

pub store_node_ne :
    (a b : ℕ) (node : VirtmemReservation) (nodes : ℕ → VirtmemReservation)
    → b ≢ a
    → store_node a node nodes b ≡ nodes b
store_node_ne a b node nodes ne = ground arith

pub is_null-false : (a : ℕ) → a ≢ 0 → (a == 0) ≡ false
is_null-false a ne = ground arith

module _ (v : Virtmem) (rv mem size : ℕ) where
  -- Adding a reservation at an address that `malloc` gives, which is not null and none of the list,
  -- puts it in front of the list, with every link in both directions.
  pub virtmem_add_reservation-IsChain :
      (hs : List ℕ)
      → rv ≢ 0
      → IsFresh rv hs
      → IsChain v.nodes 0 v.reservations hs
      → let v' = virtmem_add_reservation rv mem size v in
        IsChain v'.nodes 0 v'.reservations (rv ∷ hs)
  unfolding virtmem_add_reservation
  virtmem_add_reservation-IsChain [] ne fresh chain =
      let region : MemRegion = record { start = mem; end = add64 mem size } in
      let node : VirtmemReservation = record { next = v.reservations; prev = 0; region = region } in
      let nodes = store_node rv node v.nodes in
      let self = store_node_self rv node v.nodes in
      let empty : v.reservations ≡ 0 = unfold IsChain in chain in
      let null : (v.reservations == 0) ≡ true = rw empty refl in
      let done =
        front-IsChain nodes rv v.reservations [] ne fresh (ap (λ n. n.prev) self)
          (ap (λ n. n.next) self) (unfold IsChain in empty) in
      rw (is_null-false rv ne, null) done
  virtmem_add_reservation-IsChain (h ∷ hs) ne fresh chain =
      let region : MemRegion = record { start = mem; end = add64 mem size } in
      let node : VirtmemReservation = record { next = v.reservations; prev = 0; region = region } in
      let nodes = store_node rv node v.nodes in
      let linked = set_prev v.reservations rv nodes in
      let apart = head_ne-IsFresh v.nodes 0 v.reservations rv h hs chain fresh in
      let self =
        store_node_ne v.reservations rv (record (nodes v.reservations) { prev = rv }) nodes apart
        ∙ store_node_self rv node v.nodes in
      let kept = store_node-IsChain rv node v.nodes 0 v.reservations (h ∷ hs) fresh chain in
      let done =
        front-IsChain linked rv v.reservations (h ∷ hs) ne fresh (ap (λ n. n.prev) self)
          (ap (λ n. n.next) self) (set_prev-head_IsChain rv nodes 0 v.reservations h hs kept) in
      let null = is_null-false v.reservations (head_ne v.nodes 0 v.reservations h hs chain) in
      rw (is_null-false rv ne, null) done
