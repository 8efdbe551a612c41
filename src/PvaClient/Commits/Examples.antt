-- ===== src/PvaClient/Commits/Examples.antt =====
-- src/pva/client.rs, `put_commit_many`: two puts, the second with a value of which nothing is marked.
use repics.Prelude.{Option, some, ℕ, ◌≡◌, refl, List, [], ◌∷◌, none, some, ok, err}
use repics.PvaClient.{already_committed, refused, commit, put_leaves, take}
use repics.PvaClient.Commits.{Puts, failed, put_commit_many, commits, take_from}
use repics.PvaClient.Commits.Spent.{Outcome, put_commit_many-Outcome}

abbrev open_puts : Puts ℕ ℕ
open_puts i = record { present = none; inner = some i }

abbrev values : List (Option (List ℕ))
values = some (7 ∷ []) ∷ some (8 ∷ 9 ∷ []) ∷ []

abbrev bad_values : List (Option (List ℕ))
bad_values = some (7 ∷ []) ∷ some [] ∷ []

abbrev two : List ℕ
two = 4 ∷ 5 ∷ []

put_commit_many-Outcome_example :
    Outcome open_puts two bad_values
      (put_commit_many two bad_values open_puts).0
      (put_commit_many two bad_values open_puts).1
put_commit_many-Outcome_example = put_commit_many-Outcome two bad_values open_puts refl

put_commit_many-values :
    (put_commit_many two values open_puts).0 ≡ ok ((4, 7 ∷ []) ∷ (5, 8 ∷ 9 ∷ []) ∷ [])
unfolding put_commit_many commits take_from take put_leaves
put_commit_many-values = refl

-- One put, named twice, is committed by neither.
put_commit_many-twice :
    (put_commit_many (4 ∷ 4 ∷ []) values open_puts).0 ≡ err (failed already_committed)
unfolding put_commit_many commits take_from take put_leaves
put_commit_many-twice = refl

-- The first put was not sent, and can be committed no more.
commit-lost :
    (commit {Leaf = ℕ} ((put_commit_many two bad_values open_puts).1 4) (some (7 ∷ []))).0
    ≡ refused already_committed
unfolding put_commit_many commits take_from take put_leaves commit
commit-lost = refl
