-- ===== src/Tickets/Proofs/Counts.antt =====
-- How often a ticket stands among the voters, and how many voters there are.
use mathlib.Core.List.{reverse}
use rusty_coin.Common.{
  ℕ, zero, suc, ◌+◌, ◌≤◌, ◌≡◌, ◌≢◌, refl, ap, ◌∙◌, arith, inl, inr, List, [], ◌∷◌, ◌++◌, length,
  map, take, min, length-take, length-append, Bool-cases,
}
use rusty_coin.Common.HashMap.{AreUnique, Absent}
use rusty_coin.Common.Ranked.{reverse-cons}
use rusty_coin.Common.Sorting.{insert_by, sort_by, length-sort_by}
use rusty_coin.Types.Tx.{Hash, Hash-discrete, hash_key}
use rusty_coin.Tickets.Pool.{TicketStatus, pending, live, voted, expired, revoked, LiveTicketsPool}
use rusty_coin.Tickets.Selection.{entry_le, scored}

-- How often an identifier stands in a list.
unfoldable pub times_in : Hash → List Hash → ℕ
times_in id [] = 0
times_in id (hash ∷ hashes) =
    let rest = times_in id hashes in elim (Hash-discrete hash id) [ yes p ↦ suc rest | no p ↦ rest ]

abbrev count_status : TicketStatus → ℕ
count_status pending = 0
count_status live = 1
count_status voted = 0
count_status expired = 0
count_status revoked = 0

-- How many tickets of the pool are live.
unfoldable pub live_count : LiveTicketsPool → ℕ
live_count [] = 0
live_count ((id, ticket) ∷ pool) = count_status ticket.status + live_count pool

abbrev pub ids : List (ℕ × Hash) → List Hash
ids entries = map (λ entry. entry.1) entries

times_in-insert_by :
    (id : Hash) (e : ℕ × Hash) (entries : List (ℕ × Hash))
    → times_in id (ids (insert_by entry_le e entries)) ≡ times_in id (ids (e ∷ entries))
unfolding times_in insert_by
times_in-insert_by id e [] = refl
times_in-insert_by id e (d ∷ entries) = elim (Bool-cases (entry_le e d)) [
  | inl l ↦ rw l refl
  | inr l ↦ rw l (elim (Hash-discrete e.1 id) [
    | yes p ↦ ground (arith, p, times_in-insert_by id e entries)
    | no p ↦ ground (arith, p, times_in-insert_by id e entries)
  ])
]

times_in-sort_by :
    (id : Hash) (entries : List (ℕ × Hash))
    → times_in id (ids (sort_by entry_le entries)) ≡ times_in id (ids entries)
unfolding times_in sort_by
times_in-sort_by id [] = refl
times_in-sort_by id (e ∷ entries) =
    times_in-insert_by id e (sort_by entry_le entries) ∙ ground (arith, times_in-sort_by id entries)

times_in-append :
    (id : Hash) (xs ys : List (ℕ × Hash))
    → times_in id (ids (xs ++ ys)) ≡ times_in id (ids xs) + times_in id (ids ys)
unfolding times_in
times_in-append id [] ys = omega arith
times_in-append id (x ∷ xs) ys = ground (arith, times_in-append id xs ys)

times_in-reverse :
    (id : Hash) (entries : List (ℕ × Hash))
    → times_in id (ids (reverse entries)) ≡ times_in id (ids entries)
unfolding times_in
times_in-reverse id [] = refl
times_in-reverse id (e ∷ entries) =
    ap (λ es. times_in id (ids es)) (reverse-cons e entries)
    ∙ times_in-append id (reverse entries) (e ∷ [])
    ∙ ground (arith, times_in-reverse id entries)

times_in-take :
    (id : Hash) (n : ℕ) (entries : List (ℕ × Hash))
    → times_in id (ids (take n entries)) ≤ times_in id (ids entries)
unfolding times_in
times_in-take id zero entries = omega arith
times_in-take id (suc n) [] = omega arith
times_in-take id (suc n) (e ∷ entries) = ground (arith, times_in-take id n entries)

times_in_of_Absent :
    (score : Hash → ℕ) (id : Hash) (pool : LiveTicketsPool)
    → Absent id pool
    → times_in id (ids (scored score pool)) ≡ 0
unfolding times_in scored
times_in_of_Absent score id [] a = refl
times_in_of_Absent score id ((j, t) ∷ pool) a =
    let other : j ≢ id = a.0 in ground (arith, other, times_in_of_Absent score id pool a.1)

times_in-scored :
    (score : Hash → ℕ) (id : Hash) (pool : LiveTicketsPool)
    → AreUnique pool
    → times_in id (ids (scored score pool)) ≤ 1
unfolding times_in scored
times_in-scored score id [] u = omega arith
times_in-scored score id ((j, t) ∷ pool) u = elim (Hash-discrete j id) [
  | yes p ↦ ground (arith, p, times_in_of_Absent score j pool u.0)
  | no p ↦ ground (arith, p, times_in-scored score id pool u.1)
]

length-scored :
    (score : Hash → ℕ) (pool : LiveTicketsPool) → length (scored score pool) ≡ live_count pool
unfolding scored live_count
length-scored score [] = refl
length-scored score ((id, t) ∷ pool) = ground (arith, length-scored score pool)

length-reverse : (entries : List (ℕ × Hash)) → length (reverse entries) ≡ length entries
length-reverse [] = refl
length-reverse (e ∷ entries) =
    ap length (reverse-cons e entries)
    ∙ length-append (reverse entries) (e ∷ [])
    ∙ omega (arith, length-reverse entries)

length-ids : (entries : List (ℕ × Hash)) → length (ids entries) ≡ length entries
length-ids [] = refl
length-ids (e ∷ entries) = ap suc (length-ids entries)

-- The first entries of the ranking name each ticket at most once.
pub times_in-ranked :
    (score : Hash → ℕ) (n : ℕ) (id : Hash) (pool : LiveTicketsPool)
    → AreUnique pool
    → times_in id (ids (take n (reverse (sort_by entry_le (scored score pool))))) ≤ 1
times_in-ranked score n id pool u =
    let entries = scored score pool in
    omega (
      arith,
      times_in-take id n (reverse (sort_by entry_le entries)),
      times_in-reverse id (sort_by entry_le entries),
      times_in-sort_by id entries,
      times_in-scored score id pool u,
    )

-- They are as many as asked for, or as many as there are live tickets.
pub length-ranked :
    (score : Hash → ℕ) (n : ℕ) (pool : LiveTicketsPool)
    → length (ids (take n (reverse (sort_by entry_le (scored score pool)))))
      ≡ min n (live_count pool)
length-ranked score n pool =
    let entries = scored score pool in
    omega (
      arith,
      length-ids (take n (reverse (sort_by entry_le entries))),
      length-take n (reverse (sort_by entry_le entries)),
      length-reverse (sort_by entry_le entries),
      length-sort_by entry_le entries,
      length-scored score pool,
    )
