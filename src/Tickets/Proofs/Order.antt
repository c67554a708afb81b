-- ===== src/Tickets/Proofs/Order.antt =====
-- The ranking of the live tickets does not depend on the order of the pool.
use rusty_coin.Common.{
  ℕ, ◌≡◌, ◌⊎◌, inl, inr, refl, sym, ap, ◌∙◌, true, some, List, [], ◌∷◌, arith, Bool-cases,
  if◌then◌else◌,
}
use rusty_coin.Common.HashMap.{
  get, remove, AreUnique, get_of_Absent, get-remove, remove-AreUnique, remove_of_Absent, get_self,
}
use rusty_coin.Common.Sorting.{
  insert_by, sort_by, insert_by_comm, bytes_le_total, bytes_le_antisym, bytes_le_trans,
}
use rusty_coin.Types.Tx.{Hash, hash_key}
use rusty_coin.Tickets.Pool.{Ticket, LiveTicketsPool}
use rusty_coin.Tickets.Selection.{entry_le, is_live, scored}

pub entry_le_total : (a b : ℕ × Hash) → (entry_le a b ≡ true) ⊎ (entry_le b a ≡ true)
unfolding entry_le
entry_le_total a b = ground (arith, bytes_le_total a.1 b.1)

entry_le_antisym : (a b : ℕ × Hash) → entry_le a b ≡ true → entry_le b a ≡ true → a ≡ b
unfolding entry_le
entry_le_antisym a b p q = ground (arith, bytes_le_antisym a.1 b.1)

pub entry_le_trans :
    (a b c : ℕ × Hash) → entry_le a b ≡ true → entry_le b c ≡ true → entry_le a c ≡ true
unfolding entry_le
entry_le_trans a b c p q = ground (arith, bytes_le_trans a.1 b.1 c.1)

insert_entry_comm :
    (a b : ℕ × Hash) (xs : List (ℕ × Hash))
    → insert_by entry_le a (insert_by entry_le b xs)
      ≡ insert_by entry_le b (insert_by entry_le a xs)
insert_entry_comm = insert_by_comm entry_le entry_le_total entry_le_antisym entry_le_trans

-- A live ticket in its place.
abbrev place : (Hash → ℕ) → Hash → Ticket → List (ℕ × Hash) → List (ℕ × Hash)
place score id ticket xs =
    if is_live ticket.status then insert_by entry_le (score id, id) xs else xs

place_comm :
    (score : Hash → ℕ) (i j : Hash) (t u : Ticket) (xs : List (ℕ × Hash))
    → place score i t (place score j u xs) ≡ place score j u (place score i t xs)
place_comm score i j t u xs = ground (arith, insert_entry_comm (score i, i) (score j, j) xs)

abbrev pub ranking : (Hash → ℕ) → LiveTicketsPool → List (ℕ × Hash)
ranking score pool = sort_by entry_le (scored score pool)

ranking_cons :
    (score : Hash → ℕ) (id : Hash) (t : Ticket) (pool : LiveTicketsPool)
    → ranking score ((id, t) ∷ pool) ≡ place score id t (ranking score pool)
unfolding scored sort_by
ranking_cons score id t pool = elim (Bool-cases (is_live t.status)) [
  | inl l ↦ rw l refl
  | inr l ↦ rw l refl
]

-- A ticket may be placed last.
ranking-remove :
    (score : Hash → ℕ) (k : Hash) (t : Ticket) (pool : LiveTicketsPool)
    → AreUnique pool
    → get k pool ≡ some t
    → ranking score pool ≡ place score k t (ranking score (remove k pool))
unfolding get remove
ranking-remove score k t [] u e = absurd (cc e)
ranking-remove score k t ((j, w) ∷ pool) u e = elim (hash_key.eq j k) [
  | yes p ↦
      let gone : remove k ((j, w) ∷ pool) ≡ pool = ground (arith, remove_of_Absent j pool u.0) in
      let same : w ≡ t = ground (arith, e) in
      ranking_cons score j w pool
      ∙ ap (λ i. place score i w (ranking score pool)) p
      ∙ ap (λ x. place score k x (ranking score pool)) same
      ∙ ap (λ m. place score k t (ranking score m)) (sym gone)
  | no p ↦
      let kept : remove k ((j, w) ∷ pool) ≡ (j, w) ∷ remove k pool = ground arith in
      ranking_cons score j w pool
      ∙ ap (place score j w) (ranking-remove score k t pool u.1 (ground (arith, e)))
      ∙ place_comm score j k w t (ranking score (remove k pool))
      ∙ ap (place score k t) (sym (ranking_cons score j w (remove k pool)))
      ∙ ap (λ m. place score k t (ranking score m)) (sym kept)
]

-- The same tickets, whatever their order, have the same ranking.
pub ranking-get :
    (score : Hash → ℕ) (p q : LiveTicketsPool)
    → AreUnique p
    → AreUnique q
    → ((id : Hash) → get id p ≡ get id q)
    → ranking score p ≡ ranking score q
unfolding get
ranking-get score [] [] u v same = refl
ranking-get score [] ((j, w) ∷ q) u v same = absurd (cc (same j, get_self j w q))
ranking-get score ((k, t) ∷ p) q u v same =
    let e : get k q ≡ some t = sym (same k) ∙ get_self k t p in
    let rest = ranking-get score p (remove k q) u.1 (remove-AreUnique k q v) (λ j.
      elim (hash_key.eq k j) [
        | yes h ↦ ground (arith, get-remove k j q, get_of_Absent k p u.0)
        | no h ↦ ground (arith, get-remove k j q, same j)
      ]) in
    ranking_cons score k t p ∙ ap (place score k t) rest ∙ sym (ranking-remove score k t q v e)
