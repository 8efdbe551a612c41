-- ===== src/PvaClient/Commits.antt =====
-- src/pva/client.rs, `put_commit_many`: many puts committed at once. The puts are shared objects, so a
-- put may be named twice.
pub mod Spent
pub mod Examples
use repics.Prelude.{
  ℕ, Option, none, some, List, [], ◌∷◌, length, Result, ok, err, ◌>>=◌, eqb, not, if◌then◌else◌,
}
use repics.PvaClient.{PutOp, CommitError, already_committed, put_leaves, take}

-- The puts, by what stands for the object.
abbrev pub Puts : Type 0 → Type 0 → Type 0
Puts Op Present = ℕ → PutOp Op Present

pub data CommitManyError : Type 0 where
  wrong_count : CommitManyError
  failed : CommitError → CommitManyError

or_committed : {Op : Type 0} → Option Op → Result CommitError Op
or_committed none = err already_committed
or_committed (some op) = ok op

or_failed :
    {Op Leaf : Type 0}
    → Result CommitError (List (Op × List Leaf))
    → Result CommitManyError (List (Op × List Leaf))
or_failed (ok cs) = ok cs
or_failed (err e) = err (failed e)

module _ {Op Present : Type 0} where
  set_put : ℕ → PutOp Op Present → Puts Op Present → Puts Op Present
  set_put i p puts j = if eqb j i then p else puts j

  -- `take`, on the object.
  pub take_from : ℕ → Puts Op Present → Result CommitError Op × Puts Op Present
  unfolding set_put or_committed
  take_from i puts = (or_committed (take (puts i)).0, set_put i (take (puts i)).1 puts)

module _ {Op Leaf : Type 0} where
  -- What is sent for one put.
  commit_of : Result CommitError Op → Option (List Leaf) → Result CommitError (Op × List Leaf)
  commit_of (err e) v = err e
  commit_of (ok op) v = put_leaves v >>= λ leaves. ok (op, leaves)

module _ {Op Present Leaf : Type 0} where
  with_rest :
      Result CommitError (Op × List Leaf)
      → Puts Op Present
      → Result CommitError (List (Op × List Leaf)) × Puts Op Present
      → Result CommitError (List (Op × List Leaf)) × Puts Op Present
  with_rest (err e) puts rest = (err e, puts)
  with_rest (ok c) puts rest = (rest.0 >>= λ cs. ok (c ∷ cs), rest.1)

  -- The loop over the puts and the marked leaves of their values: what is to be sent, or the first
  -- error, and the puts after it.
  pub commits :
      List ℕ
      → List (Option (List Leaf))
      → Puts Op Present
      → Result CommitError (List (Op × List Leaf)) × Puts Op Present
  unfolding take_from commit_of with_rest
  commits (i ∷ ops) (v ∷ values) puts =
      with_rest (commit_of (take_from i puts).0 v) (take_from i puts).1
        (commits ops values (take_from i puts).1)
  commits ops values puts = (ok [], puts)

  -- `put_commit_many`, up to the run of the futures.
  pub put_commit_many :
      List ℕ
      → List (Option (List Leaf))
      → Puts Op Present
      → Result CommitManyError (List (Op × List Leaf)) × Puts Op Present
  unfolding commits or_failed
  put_commit_many ops values puts =
      if not (eqb (length ops) (length values))
      then (err wrong_count, puts)
      else (or_failed (commits ops values puts).0, (commits ops values puts).1)
