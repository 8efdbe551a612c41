-- ===== src/PvaClient/Examples.antt =====
-- A put of src/pva/client.rs and the queue of a monitor on concrete input.
use repics.Prelude.{ℕ, ◌≡◌, refl, ◌⊎◌, String, Option, none, some, List, [], ◌∷◌}
use repics.Prelude.Int.{pos}
use repics.Prelude.Map.{Map}
use repics.PvaClient.{
  ScalarValue, int, PutOp, already_committed, nothing_to_put, view_cannot_be_sent, sent, refused,
  commit,
}
use repics.PvaClient.Puts.{commit-once}

abbrev open_put : PutOp ℕ ℕ
open_put = record { present = some 1; inner = some 5 }

abbrev leaves : Option (List ℕ)
leaves = some (8 ∷ [])

commit-once_example :
    let (outcome, p') = commit open_put leaves in
    (((l : ℕ) × (ls : List ℕ) × (leaves ≡ some (l ∷ ls)) × (outcome ≡ sent 5 (l ∷ ls)))
      ⊎ (((leaves ≡ some []) × (outcome ≡ refused nothing_to_put))
          ⊎ ((leaves ≡ none) × (outcome ≡ refused view_cannot_be_sent))))
    × ((commit p' leaves).0 ≡ refused already_committed)
commit-once_example = commit-once open_put 5 leaves leaves refl

abbrev options : Option (Map String ScalarValue)
options = some (("queueSize", int (pos 10)) ∷ [])
