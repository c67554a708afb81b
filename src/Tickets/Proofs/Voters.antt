-- ===== src/Tickets/Proofs/Voters.antt =====
-- The voters are the five highest of the ranking.
use mathlib.Core.List.{reverse}
use mathlib.Core.Path.{subst}
use rusty_coin.Common.{
  ℕ, ◌≤◌, ◌≡◌, ◌⊎◌, inl, inr, refl, ap, true, some, List, [], ◌∷◌, arith, Bool-cases, length, All,
  map, take, min,
}
use rusty_coin.Common.HashMap.{get, AreUnique, get_of_Absent}
use rusty_coin.Common.Sorting.{sort_by, sort_by-All}
use rusty_coin.Common.Ranked.{In, take-All, reverse-All, take-reverse-sort_by}
use rusty_coin.Common.Words.{Bytes}
use rusty_coin.Types.Tx.{Hash, hash_key}
use rusty_coin.Tickets.Pool.{
  Ticket, TicketStatus, pending, live, voted, expired, revoked, LiveTicketsPool,
}
use rusty_coin.Tickets.Selection.{
  entry_le, is_live, scored, voters_per_block, lottery_score, select_voters,
}
use rusty_coin.Tickets.Proofs.Counts.{times_in, live_count, times_in-ranked, length-ranked}
use rusty_coin.Tickets.Proofs.Order.{entry_le_total, entry_le_trans, ranking-get}

-- The ticket is in the pool, and live.
abbrev pub IsLiveIn : LiveTicketsPool → Hash → Type 0
IsLiveIn pool id = (t : Ticket) × (get id pool ≡ some t) × (t.status ≡ live)

abbrev IsScored : (Hash → ℕ) → LiveTicketsPool → ℕ × Hash → Type 0
IsScored score pool entry = (entry.0 ≡ score entry.1) × IsLiveIn pool entry.1

is_live-eq : (s : TicketStatus) → is_live s ≡ true → s ≡ live
is_live-eq pending e = absurd (cc e)
is_live-eq live e = refl
is_live-eq voted e = absurd (cc e)
is_live-eq expired e = absurd (cc e)
is_live-eq revoked e = absurd (cc e)

scored-All :
    (score : Hash → ℕ) (whole pool : LiveTicketsPool)
    → AreUnique pool
    → ((id : Hash) (t : Ticket) → get id pool ≡ some t → get id whole ≡ some t)
    → All (IsScored score whole) (scored score pool)
unfolding scored get
scored-All score whole [] u h = tt
scored-All score whole ((id, t) ∷ pool) u h =
    let rest = scored-All score whole pool u.1 (λ j w e. h j w (elim (hash_key.eq id j) [
      | yes p ↦ absurd (ground (arith, get_of_Absent id pool u.0, e))
      | no p ↦ ground (arith, e)
    ])) in
    elim (Bool-cases (is_live t.status)) [
      | inl l ↦ rw l ((refl, (t, h id t (ground arith), is_live-eq t.status l)), rest)
      | inr l ↦ rw l rest
    ]

scored-In :
    (score : Hash → ℕ) (pool : LiveTicketsPool) (id : Hash) (t : Ticket)
    → get id pool ≡ some t
    → t.status ≡ live
    → In (score id, id) (scored score pool)
unfolding scored get
scored-In score [] id t e l = absurd (cc e)
scored-In score ((j, w) ∷ pool) id t e l = elim (hash_key.eq j id) [
  | yes p ↦
      let same : w ≡ t = ground (arith, e) in
      let alive : is_live w.status ≡ true = ground (arith, same, l) in
      rw alive (inl (ground (arith, p)))
  | no p ↦
      let rest = scored-In score pool id t (ground (arith, e)) l in
      elim (Bool-cases (is_live w.status)) [ inl a ↦ rw a (inr rest) | inr d ↦ rw d rest ]
]

-- The voters with their scores.
abbrev winners : (Hash → ℕ) → LiveTicketsPool → List (ℕ × Hash)
winners score pool = take voters_per_block (reverse (sort_by entry_le (scored score pool)))

map-All :
    (P : ℕ × Hash → Type 0) (Q : Hash → Type 0) (entries : List (ℕ × Hash))
    → ((e : ℕ × Hash) → P e → Q e.1)
    → All P entries
    → All Q (map (λ entry. entry.1) entries)
map-All P Q [] f h = tt
map-All P Q (e ∷ entries) f h = (f e h.0, map-All P Q entries f h.1)

map-In :
    (e : ℕ × Hash) (entries : List (ℕ × Hash))
    → In e entries
    → In e.1 (map (λ entry. entry.1) entries)
map-In e [] i = absurd i
map-In e (d ∷ entries) (inl p) = inl (ap (λ x. x.1) p)
map-In e (d ∷ entries) (inr i) = inr (map-In e entries i)

All-both :
    (P Q : ℕ × Hash → Type 0) (entries : List (ℕ × Hash))
    → All P entries
    → All Q entries
    → All (λ e. P e × Q e) entries
All-both P Q [] h k = tt
All-both P Q (e ∷ entries) h k = ((h.0, k.0), All-both P Q entries h.1 k.1)

winners-IsScored :
    (score : Hash → ℕ) (pool : LiveTicketsPool)
    → AreUnique pool
    → All (IsScored score pool) (winners score pool)
winners-IsScored score pool u =
    take-All (IsScored score pool) voters_per_block (reverse (sort_by entry_le (scored score pool)))
      (reverse-All (IsScored score pool) (sort_by entry_le (scored score pool)) (
        sort_by-All entry_le (IsScored score pool) (scored score pool)
          (scored-All score pool pool u (λ id t e. e))))

-- A live ticket is among the voters, or its score and identifier are at most those of each voter.
select-highest :
    (score : Hash → ℕ) (pool : LiveTicketsPool) (id : Hash) (t : Ticket)
    → AreUnique pool
    → get id pool ≡ some t
    → t.status ≡ live
    → In id (map (λ entry. entry.1) (winners score pool))
      ⊎ All
          (λ s. entry_le (score id, id) (score s, s) ≡ true)
          (map (λ entry. entry.1) (winners score pool))
select-highest score pool id t u e l =
    let own : ℕ × Hash = (score id, id) in
    elim (take-reverse-sort_by entry_le entry_le_total entry_le_trans own voters_per_block
      (scored score pool) (scored-In score pool id t e l)) [
        | inl taken ↦ inl (map-In own (winners score pool) taken)
        | inr below ↦ inr (
            map-All (λ s. (entry_le own s ≡ true) × IsScored score pool s)
              (λ s. entry_le own (score s, s) ≡ true) (winners score pool)
              (λ s h. subst (λ n. entry_le own (n, s.1) ≡ true) h.1.0 h.0)
              (All-both (λ s. entry_le own s ≡ true) (IsScored score pool) (winners score pool)
                below (winners-IsScored score pool u)))
      ]

pub select_voters-highest :
    (blake3 : Bytes → Hash) (serialize : Hash → Bytes) (prev_block_hash : Hash)
    (p q : LiveTicketsPool) (id : Hash) (t : Ticket)
    → AreUnique p
    → AreUnique q
    → ((i : Hash) → get i p ≡ get i q)
    → get id p ≡ some t
    → t.status ≡ live
    → let score = lottery_score blake3 serialize prev_block_hash in
      let voters = select_voters blake3 serialize prev_block_hash p in
      (voters ≡ select_voters blake3 serialize prev_block_hash q)
      × (length voters ≡ min 5 (live_count p))
      × ((i : Hash) → times_in i voters ≤ 1)
      × All (IsLiveIn p) voters
      × (In id voters ⊎ All (λ s. entry_le (score id, id) (score s, s) ≡ true) voters)
unfolding select_voters
select_voters-highest blake3 serialize prev_block_hash p q id t u v same e l =
    let score = lottery_score blake3 serialize prev_block_hash in
    (
      ap (λ xs. map (λ entry. entry.1) (take voters_per_block (reverse xs)))
          (ranking-get score p q u v same),
      length-ranked score 5 p,
      λ i. times_in-ranked score 5 i p u,
      map-All (IsScored score p) (IsLiveIn p) (winners score p) (λ s h. h.1)
          (winners-IsScored score p u),
      select-highest score p id t u e l,
    )
