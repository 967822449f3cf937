-- ===== src/Pool/Search.antt =====
-- src/adapters/pool_manager.rs: that the search for a client ends, and what it finds.
use srh_rs.Base.{
  ℕ, zero, suc, ◌+◌, ◌-◌, ◌%◌, ◌≤◌, ◌<◌, ◌≡◌, sym, ap, ◌∙◌, inl, inr, Bool, true, false, List, none,
  some, length, arith, Option-cases, Bool-cases, dec_lt,
}
use srh_rs.Pool.Entry.{PoolEntry, is_free, nth_client, find_free, readiness_client}
use srh_rs.Pool.Task.{
  Phase, arrived, admitted, waiting, granted, scanning, blocked, leased, used, releasing, ended,
  Action, advance,
}
use srh_rs.Pool.Invariant.{advance-size}

-- The moves that a task has before it at most.
unfoldable pub remaining : ℕ → Phase → ℕ
remaining size arrived = 9 + size
remaining size (admitted permit) = 8 + size
remaining size (waiting permit) = 7 + size
remaining size (granted permit) = 6 + size
remaining size (scanning permit start offset) = 5 + (size - offset)
remaining size (blocked permit start) = 4
remaining size (leased permit client) = 3
remaining size (used client) = 2
remaining size (releasing client) = 1
remaining size (ended outcome) = 0

-- Every move of a task that it can make brings it closer to its end, whatever the others do: it
-- makes no more than nine moves and one for each client.
pub advance-remaining :
    (e e' : PoolEntry) (p q : Phase) (a : Action)
    → advance e p a ≡ some (e', q)
    → (remaining (length e'.client_leases) q < remaining (length e.client_leases) p)
      × (remaining (length e.client_leases) p ≤ 9 + length e.client_leases)
unfolding remaining
advance-remaining e e' p q a h =
    rw (advance-size e e' q p a h) (shrinks e e' p q a h, bounded (length e.client_leases) p)
  where
    shrinks :
        (e e' : PoolEntry) (p q : Phase) (a : Action)
        → advance e p a ≡ some (e', q)
        → remaining (length e.client_leases) q < remaining (length e.client_leases) p
    shrinks e e' p q a h = unfold advance in ground arith

    bounded : (size : ℕ) (p : Phase) → remaining size p ≤ 9 + size
    bounded size p = ground arith

module _ (held : List Bool) (size start : ℕ) where
  -- The clients that are tried before the one at an offset are not free.
  find_free-Passes :
      (o count i : ℕ)
      → find_free held size start o count ≡ some i
      → (k : ℕ) × (k < count)
        × (i ≡ nth_client size start (o + k))
        × (is_free held i ≡ true)
        × ((j : ℕ) → j < k → is_free held (nth_client size start (o + j)) ≡ false)
  unfolding find_free
  find_free-Passes o zero i h = absurd (ground arith)
  find_free-Passes o (suc count) i h = elim (Bool-cases (is_free held (nth_client size start o))) [
    | inl free ↦ (0, omega arith, ground arith, ground arith, λ j lt. absurd (omega arith))
    | inr busy ↦
        let (k, lt, at_k, free, passed) = find_free-Passes (o + 1) count i (ground arith) in
        (
          suc k,
          omega arith,
          at_k ∙ ap (nth_client size start) (omega arith),
          free,
          skip o k busy passed,
        )
  ]
    where
      skip :
          (o k : ℕ)
          → is_free held (nth_client size start o) ≡ false
          → ((j : ℕ) → j < k → is_free held (nth_client size start (o + 1 + j)) ≡ false)
          → (j : ℕ) → j < suc k
          → is_free held (nth_client size start (o + j)) ≡ false
      skip o k busy passed zero lt =
          ap (λ n. is_free held (nth_client size start n)) (omega arith) ∙ busy
      skip o k busy passed (suc j) lt =
          ap (λ n. is_free held (nth_client size start n)) (omega arith) ∙ passed j (omega arith)

  find_free-none :
      (o count : ℕ)
      → find_free held size start o count ≡ none
      → (j : ℕ) → j < count
      → is_free held (nth_client size start (o + j)) ≡ false
  unfolding find_free
  find_free-none o zero h j lt = absurd (omega arith)
  find_free-none o (suc count) h zero lt =
      let here : is_free held (nth_client size start o) ≡ false = ground arith in
      ap (λ n. is_free held (nth_client size start n)) (omega arith) ∙ here
  find_free-none o (suc count) h (suc j) lt =
      ap (λ n. is_free held (nth_client size start n)) (omega arith)
      ∙ find_free-none (o + 1) count (ground arith) j (omega arith)

-- Every client is at some offset from the first.
nth_client-onto :
    (size start c : ℕ)
    → start < size
    → c < size
    → (j : ℕ) × (j < size) × (nth_client size start j ≡ c)
nth_client-onto size start c low lt = elim (dec_lt c start) [
  | yes before ↦ (c + size - start, omega arith, grind arith)
  | no after' ↦ (c - start, omega arith, grind arith)
]

readiness-free :
    (held : List Bool) (size start : ℕ)
    → start < size
    → let chosen : ℕ = elim (find_free held size start 0 size) [
      | some index ↦ index
      | none ↦ start
    ] in
      (chosen < size) × ((c : ℕ) → c < size → is_free held c ≡ true → is_free held chosen ≡ true)
readiness-free held size start low = elim (Option-cases (find_free held size start 0 size)) [
  | inl none_free ↦ rw none_free (low, λ c lt free. absurd (busy none_free c lt free))
  | inr (i, found) ↦
      let (k, lt, at_k, free, passed) = find_free-Passes held size start 0 size i found in
      rw found (rw at_k (mod-lt size start (start + (0 + k)) low), λ c lt' free'. free)
]
  where
    mod-lt : (size start n : ℕ) → start < size → n % size < size
    mod-lt size start n low = grind arith

    busy : find_free held size start 0 size ≡ none → (c : ℕ) → c < size → is_free held c ≡ true → ⊥
    busy none_free c lt free =
        let (j, lt', at_j) = nth_client-onto size start c low lt in
        let taken = find_free-none held size start 0 size none_free j lt' in
        let same : nth_client size start (0 + j) ≡ c =
          ap (nth_client size start) (omega arith) ∙ at_j in
        let clash : true ≡ false = sym free ∙ ap (is_free held) (sym same) ∙ taken in cc

-- The client that readiness uses is one of the pool's, and it is one whose operation lock is free if
-- there is one.
pub readiness_client-IsFree :
    (e : PoolEntry)
    → 0 < length e.client_operations
    → ((readiness_client e).0 < length e.client_operations)
      × ((c : ℕ)
          → c < length e.client_operations
          → is_free e.client_operations c ≡ true
          → is_free e.client_operations (readiness_client e).0 ≡ true)
unfolding readiness_client
readiness_client-IsFree e some_client =
    readiness-free e.client_operations (length e.client_operations)
      (e.next_client % length e.client_operations) (grind arith)
