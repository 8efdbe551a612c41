-- ===== src/PvaClient.antt =====
-- src/pva/client.rs: the length of a monitor's queue, and a put between its two phases.
pub mod Puts
pub mod Config
pub mod Many
pub mod Commits
pub mod Examples
use repics.Prelude.{
  ℕ, ◌+◌, ◌-◌, ◌%◌, ◌^◌, Bool, true, false, String, string_eq, Option, none, some, List, [], ◌∷◌,
  Result, ok, err, max, if◌then◌else◌,
}
use repics.Prelude.Int.{ℤ, pos, negsuc}
use repics.Prelude.Map.{Map, get}
use repics.Text.{Text}
use repics.Text.Number.{parse_unsigned}

-- The options of a request that matter here; the others are one.
pub data ScalarValue : Type 0 where
  int long : ℤ → ScalarValue
  uint : ℕ → ScalarValue
  string : Text → ScalarValue
  other : ScalarValue

-- `as usize` of a signed number keeps it modulo 2^64.
as_usize : ℤ → ℕ
as_usize (pos n) = n % 2 ^ 64
as_usize (negsuc n) = 2 ^ 64 - (n % 2 ^ 64 + 1)

size_of : ScalarValue → Option ℕ
unfolding as_usize
size_of (int n) = some (as_usize n)
size_of (long n) = some (as_usize n)
size_of (uint n) = some n
size_of (string s) = parse_unsigned (2 ^ 64 - 1) s
size_of other = none

from_options : Option ScalarValue → Option ℕ
unfolding size_of
from_options none = none
from_options (some v) = size_of v

or_four : Option ℕ → ℕ
or_four none = 4
or_four (some n) = n

-- `queue_limit`, for the record options of the request, if there is one; the first of a name counts.
pub queue_limit : Option (Map String ScalarValue) → Option ℕ → ℕ
unfolding from_options or_four
queue_limit req (some n) = max n 1
queue_limit none none = max 4 1
queue_limit (some options) none = max (or_four (from_options (get "queueSize" options))) 1

-- `PutOp`: the library's operation, until it is committed, and the value that was read.
pub record PutOp (Op Present : Type 0) : Type 0 where
  pub present : Option Present
  pub inner : Option Op

pub data CommitError : Type 0 where
  already_committed nothing_to_put : CommitError
  -- `TypeError`: a view that is not the whole value.
  view_cannot_be_sent : CommitError

-- The marked leaves of a value.
pub data Commit (Op Leaf : Type 0) : Type 0 where
  sent : Op → List Leaf → Commit Op Leaf
  refused : CommitError → Commit Op Leaf

module _ {Leaf : Type 0} where
  -- Of a value's `marked_leaves`, which are none for a view.
  put_leaves : Option (List Leaf) → Result CommitError (List Leaf)
  put_leaves none = err view_cannot_be_sent
  put_leaves (some []) = err nothing_to_put
  put_leaves (some (l ∷ ls)) = ok (l ∷ ls)

module _ {Op Present : Type 0} where
  take : PutOp Op Present → Option Op × PutOp Op Present
  take p = (p.inner, record p { inner = none })

  -- `current` hands the value out once.
  pub current : PutOp Op Present → Option Present × PutOp Op Present
  current p = (p.present, record p { present = none })

module _ {Op Leaf : Type 0} where
  committed : Op → Result CommitError (List Leaf) → Commit Op Leaf
  committed op (ok leaves) = sent op leaves
  committed op (err e) = refused e

  commit_with : Option Op → Option (List Leaf) → Commit Op Leaf
  unfolding put_leaves committed
  commit_with none leaves = refused already_committed
  commit_with (some op) leaves = committed op (put_leaves leaves)

module _ {Op Present Leaf : Type 0} where
  -- `commit_async` up to the write: the operation is taken before the value is looked at.
  pub commit : PutOp Op Present → Option (List Leaf) → Commit Op Leaf × PutOp Op Present
  unfolding take commit_with
  commit p leaves = (commit_with (take p).0 leaves, (take p).1)
