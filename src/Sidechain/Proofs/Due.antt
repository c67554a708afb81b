-- ===== src/Sidechain/Proofs/Due.antt =====
-- The updates that are due at a height.
use rusty_coin.Common.{
  ℕ, ◌<◌, ◌≡◌, ◌≢◌, inl, inr, refl, true, false, some, [], ◌∷◌, arith, Bool-cases, All, leb,
  if◌then◌else◌,
}
use rusty_coin.Common.HashMap.{HashMap, get, AreUnique, get_of_Absent}
use rusty_coin.Types.Tx.{Hash, hash_key}
use rusty_coin.Sidechain.Integrator.{FederationUpdateProposal, ready_updates}
use rusty_coin.Sidechain.Proofs.Updates.{Waits, AreDistinct}

-- The updates that are due, of a map without a repeated key.
pub ready_updates-All :
    (P : Hash → Type 0) (height : ℕ) (pending : HashMap Hash FederationUpdateProposal)
    → All (λ e. P e.0) pending
    → All P (ready_updates height pending)
unfolding ready_updates
ready_updates-All P height [] h = tt
ready_updates-All P height ((id, p) ∷ pending) (q, h) =
    elim (leb p.activation_height height)
      as (λ b.
        All P (if b then id ∷ ready_updates height pending else ready_updates height pending)) [
          | true ↦ (q, ready_updates-All P height pending h)
          | false ↦ ready_updates-All P height pending h
        ]

pub ready_updates-AreDistinct :
    (height : ℕ) (pending : HashMap Hash FederationUpdateProposal)
    → AreUnique pending
    → AreDistinct (ready_updates height pending)
unfolding ready_updates
ready_updates-AreDistinct height [] u = tt
ready_updates-AreDistinct height ((id, p) ∷ pending) u =
    elim (leb p.activation_height height)
      as (λ b.
        AreDistinct
          (if b then id ∷ ready_updates height pending else ready_updates height pending)) [
            | true ↦ (
              ready_updates-All (λ y. y ≢ id) height pending u.0,
              ready_updates-AreDistinct height pending u.1,
            )
            | false ↦ ready_updates-AreDistinct height pending u.1
          ]

-- Every key of a map is found, in whatever larger map keeps what is found.
pub All-Waits :
    (whole pending : HashMap Hash FederationUpdateProposal)
    → ((id : Hash) → Waits pending id → Waits whole id)
    → All (λ e. Waits whole e.0) pending
unfolding get
All-Waits whole [] h = tt
All-Waits whole ((id, p) ∷ pending) h = (
  h id (p, ground arith),
  All-Waits whole pending (λ k w.
      h k (elim (hash_key.eq id k) [
        | yes q ↦ (p, ground arith)
        | no q ↦ (w.0, ground (arith, w.1))
      ])),
)

-- What is not among the updates that are due is not due.
pub ready_updates-others :
    (height : ℕ) (pending : HashMap Hash FederationUpdateProposal) (id : Hash)
    (p : FederationUpdateProposal)
    → All (λ y. y ≢ id) (ready_updates height pending)
    → get id pending ≡ some p
    → height < p.activation_height
unfolding ready_updates get
ready_updates-others height [] id p o e = absurd (cc e)
ready_updates-others height ((j, q) ∷ pending) id p o e =
    elim (Bool-cases (leb q.activation_height height)) [
      | inl due ↦
          let both : All (λ y. y ≢ id) (j ∷ ready_updates height pending) = rw due at o in
          ready_updates-others height pending id p both.1 (ground (arith, both.0, e))
      | inr later ↦ elim (hash_key.eq j id) [
        | yes same ↦ ground (arith, e)
        | no other ↦ ready_updates-others height pending id p (rw later at o) (ground (arith, e))
      ]
    ]

-- A map whose entries are not due.
pub ready_updates-none :
    (height : ℕ) (pending : HashMap Hash FederationUpdateProposal)
    → AreUnique pending
    → ((id : Hash) (p : FederationUpdateProposal)
        → get id pending ≡ some p
        → height < p.activation_height)
    → ready_updates height pending ≡ []
unfolding ready_updates get
ready_updates-none height [] u h = refl
ready_updates-none height ((j, q) ∷ pending) u h =
    let later : height < q.activation_height = h j q (ground arith) in
    let rest = ready_updates-none height pending u.1 (λ id p e. h id p (elim (hash_key.eq j id) [
      | yes same ↦ absurd (ground (arith, get_of_Absent j pending u.0, e))
      | no other ↦ ground (arith, e)
    ])) in
    ground (arith, later, rest)
