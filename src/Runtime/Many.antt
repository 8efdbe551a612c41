-- ===== src/Runtime/Many.antt =====
-- src/runtime.rs, `bounded`, `join_all` and `results_to_py`: deadlines, and many futures at once. How a
-- future ends is the environment's, and so is whether it does so in time.
use repics.Prelude.{List, [], ◌∷◌, Option, none, some, Result, ok, err, ◌>>=◌}

-- How a spawned task ends.
pub data Joined {ℓ} (J E A : Type ℓ) : Type ℓ where
  finished : Result E A → Joined J E A
  panicked : J → Joined J E A

-- What a `block_on` of a future comes to in the caller's own thread: no task is spawned, so a panic
-- goes on through the caller.
pub data Blocked {ℓ} (J E A : Type ℓ) : Type ℓ where
  returned : Result E A → Blocked J E A
  unwound : J → Blocked J E A

-- Whether a future ends before its deadline.
pub data Timed {ℓ} (E A : Type ℓ) : Type ℓ where
  in_time : Result E A → Timed E A
  elapsed : Timed E A

-- An entry of a list of results: a value or the exception object.
pub data Entry {ℓ} (E P : Type ℓ) : Type ℓ where
  value : P → Entry E P
  exception : E → Entry E P

module _ {ℓ} {S E A : Type ℓ} where
  -- Without a timeout, a future is waited for; the future `forever` is how it then ends.
  unfoldable pub bounded :
      (S → E) → Option S → (forever : Result E A) → (S → Timed E A) → Result E A
  bounded timeout_err none forever timed = forever
  bounded timeout_err (some secs) forever timed = elim (timed secs) [
    | in_time r ↦ r
    | elapsed ↦ err (timeout_err secs)
  ]

module _ {ℓ} {J E A : Type ℓ} where
  unfoldable pub outcome : (J → E) → Joined J E A → Result E A
  outcome on_join_error (finished r) = r
  outcome on_join_error (panicked j) = err (on_join_error j)

  unfoldable pub block_on : Option J → Result E A → Blocked J E A
  block_on none r = returned r
  block_on (some j) r = unwound j

  unfoldable pub join_all : (J → E) → List (Joined J E A) → List (Result E A)
  unfolding outcome
  join_all on_join_error [] = []
  join_all on_join_error (h ∷ hs) = outcome on_join_error h ∷ join_all on_join_error hs

module _ {ℓ} {E A P : Type ℓ} where
  unfoldable pub to_entry : (A → Result E P) → Result E A → Result E (Entry E P)
  to_entry into_py (ok v) = into_py v >>= λ p. ok (value p)
  to_entry into_py (err e) = ok (exception e)

  -- A value that Python cannot take fails the whole list.
  unfoldable pub results_to_py : (A → Result E P) → List (Result E A) → Result E (List (Entry E P))
  unfolding to_entry
  results_to_py into_py [] = ok []
  results_to_py into_py (r ∷ rs) = do
    item ← to_entry into_py r
    items ← results_to_py into_py rs
    ok (item ∷ items)
