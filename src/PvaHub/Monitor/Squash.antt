-- ===== src/PvaHub/Monitor/Squash.antt =====
-- src/pva/hub.rs, `push_value`: what squashing into the tail keeps.
use repics.Prelude.{
  ℕ, ◌≡◌, refl, ap, inl, inr, Bool, false, ◌||◌, Option, none, some, List, [], ◌∷◌, ◌++◌, arith,
}
use mathlib.Core.Path.{subst}
use repics.Epics.BitSet.{get-set_iter}
use repics.Epics.Pvdata.{Pvdata}
use repics.PvaHub.Monitor.{
  Update, value, connected, disconnected, finished, Queue, squash, push_value, prepend,
  push_value_cases,
}

module _ {P : Pvdata} where
  -- Whether some queued value has the field's bit in its changed set.
  pub changed_bit : ℕ → List (Update P) → Bool
  changed_bit b [] = false
  changed_bit b (value d v c ∷ us) = P.bits.get c b || changed_bit b us
  changed_bit b (u ∷ us) = changed_bit b us

  -- The value that a client which takes everything ends with.
  pub newest : List (Update P) → Option (P.Desc × P.Field)
  newest [] = none
  newest (value d v c ∷ us) = elim (newest us) [ none ↦ some (d, v) | some n ↦ some n ]
  newest (u ∷ us) = newest us

  -- The connection items, in order.
  pub events : List (Update P) → List (Update P)
  events [] = []
  events (value d v c ∷ us) = events us
  events (u ∷ us) = u ∷ events us

  -- `ws` is `us` with one more value taken in: its changes are added, it is the newest, and the
  -- connection items stay as they were.
  pub record TakesIn (us ws : List (Update P)) (d : P.Desc) (v : P.Field) (c : P.bits.Bits)
      : Type 0 where
    pub changes : (b : ℕ) → changed_bit b ws ≡ (changed_bit b us || P.bits.get c b)
    pub latest : newest ws ≡ some (d, v)
    pub kept : events ws ≡ events us

  abbrev IsSquash :
      Option (List (Update P)) → List (Update P) → P.Desc → P.Field → P.bits.Bits → Type 0
  IsSquash none us d v c = Unit
  IsSquash (some ws) us d v c = TakesIn us ws d v c

  prepend-IsSquash :
      (u : Update P) (us : List (Update P)) (d : P.Desc) (v : P.Field) (c : P.bits.Bits)
      (o : Option (List (Update P)))
      → IsSquash o us d v c
      → IsSquash (prepend u o) (u ∷ us) d v c
  unfolding prepend changed_bit newest events
  prepend-IsSquash u us d v c none m = tt
  prepend-IsSquash (value d₀ v₀ c₀) us d v c (some ws) m = record {
    changes = λ b. ground (arith, m.changes b);
    latest = ground (arith, m.latest);
    kept = m.kept;
  }
  prepend-IsSquash (connected p) us d v c (some ws) m = record {
    changes = m.changes;
    latest = m.latest;
    kept = ap (λ es. connected p ∷ es) m.kept;
  }
  prepend-IsSquash disconnected us d v c (some ws) m = record {
    changes = m.changes;
    latest = m.latest;
    kept = ap (λ es. disconnected ∷ es) m.kept;
  }
  prepend-IsSquash finished us d v c (some ws) m = record {
    changes = m.changes;
    latest = m.latest;
    kept = ap (λ es. finished ∷ es) m.kept;
  }

  squash-IsSquash :
      (us : List (Update P)) (d : P.Desc) (v : P.Field) (c : P.bits.Bits)
      → IsSquash (squash us d v c) us d v c
  unfolding squash changed_bit newest events
  squash-IsSquash [] d v c = tt
  squash-IsSquash (value d₀ v₀ c₀ ∷ []) d v c = record {
    changes = λ b. ground (arith, get-set_iter P.bits c₀ c b);
    latest = refl;
    kept = refl;
  }
  squash-IsSquash (connected p ∷ []) d v c = tt
  squash-IsSquash (disconnected ∷ []) d v c = tt
  squash-IsSquash (finished ∷ []) d v c = tt
  squash-IsSquash (u ∷ w ∷ us) d v c =
      prepend-IsSquash u (w ∷ us) d v c (squash (w ∷ us) d v c) (squash-IsSquash (w ∷ us) d v c)

  append-TakesIn :
      (us : List (Update P)) (d : P.Desc) (v : P.Field) (c : P.bits.Bits)
      → TakesIn us (us ++ (value d v c ∷ [])) d v c
  unfolding changed_bit newest events prepend
  append-TakesIn [] d v c = record { changes = λ b. ground arith; latest = refl; kept = refl }
  append-TakesIn (u ∷ us) d v c =
      prepend-IsSquash u us d v c (some (us ++ (value d v c ∷ []))) (append-TakesIn us d v c)

  -- Whatever the queue holds and whether the value is squashed into the tail or appended: the bits
  -- that are changed in some queued value are those that were and those of the pushed value, the
  -- newest value is the pushed one, and the connection items are the same in the same order.
  pub push_value-TakesIn :
      (q : Queue P) (d : P.Desc) (v : P.Field) (c : P.bits.Bits)
      → TakesIn q.items (push_value q d v c).0.items d v c
  push_value-TakesIn q d v c = elim (push_value_cases q d v c) [
    | inl (full, e) ↦ subst (λ o. IsSquash o q.items d v c) e (squash-IsSquash q.items d v c)
    | inr (e, _) ↦ rw e (append-TakesIn q.items d v c)
  ]
