-- ===== src/PvaClient/Puts.antt =====
-- src/pva/client.rs, `PutOp`: how often a put is sent; `queue_limit`: how long a queue may be.
use repics.Prelude.{
  ℕ, ◌≤◌, ◌≡◌, refl, Option, none, some, List, [], ◌∷◌, ◌⊎◌, inl, inr, string_eq, String, arith,
}
use repics.Prelude.Map.{Map}
use repics.PvaClient.{
  ScalarValue, queue_limit, PutOp, already_committed, nothing_to_put, view_cannot_be_sent, sent,
  refused, put_leaves, take, committed, commit_with, commit,
}

module _ {Op Present Leaf : Type 0} where
  -- A put is sent by its first commit or never: that commit sends the marked leaves if there are any
  -- and is refused otherwise, as is that of a view that is no whole value, and in every case a later
  -- commit is refused as committed already, though after a refused one nothing has been sent.
  pub commit-once :
      (p : PutOp Op Present) (op : Op) (leaves later : Option (List Leaf))
      → p.inner ≡ some op
      → let (outcome, p') = commit p leaves in
        (((l : Leaf) × (ls : List Leaf) × (leaves ≡ some (l ∷ ls)) × (outcome ≡ sent op (l ∷ ls)))
          ⊎ (((leaves ≡ some []) × (outcome ≡ refused nothing_to_put))
              ⊎ ((leaves ≡ none) × (outcome ≡ refused view_cannot_be_sent))))
        × ((commit p' later).0 ≡ refused already_committed)
  unfolding commit take commit_with committed put_leaves
  commit-once p op none later h = (inr (inr (refl, ground (arith, h))), refl)
  commit-once p op (some []) later h = (inr (inl (refl, ground (arith, h))), refl)
  commit-once p op (some (l ∷ ls)) later h = (inl (l, ls, refl, ground (arith, h)), refl)

-- A monitor's queue has room for one value at least, whatever the arguments; a number that is given
-- beats the request, and without either it is four.
pub queue_limit-le :
    (req : Option (Map String ScalarValue)) (explicit : Option ℕ)
    → (1 ≤ queue_limit req explicit)
      × ((n : ℕ) → explicit ≡ some n → 1 ≤ n → queue_limit req explicit ≡ n)
      × (req ≡ none → explicit ≡ none → queue_limit req explicit ≡ 4)
unfolding queue_limit
queue_limit-le none none = (ground arith, λ n e. cc, λ r e. refl)
queue_limit-le (some options) none = (ground arith, λ n e. cc, λ r e. cc)
queue_limit-le none (some n) = (ground arith, λ m e le. ground (arith, e, le), λ r e. cc)
queue_limit-le (some options) (some n) = (ground arith, λ m e le. ground (arith, e, le), λ r e. cc)
