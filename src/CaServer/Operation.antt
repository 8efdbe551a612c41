-- ===== src/CaServer/Operation.antt =====
-- src/ca_server.rs, `CaServerOperation`: a client's write and the handler's verdict on it.
use repics.Prelude.{
  ℕ, ◌≡◌, ◌≢◌, refl, ◌⊎◌, inl, inr, Option, none, some, List, [], ◌∷◌, ◌++◌, Result, ok, err,
  String,
}

-- What a put callback is told; `DbStatus::FAILED` is the only failure that `done` reports.
pub data Verdict : Type 0 where
  succeeded failed : Verdict

pub data Reply : Type 0 where
  -- The put callback with this number waits for the verdict.
  notify : ℕ → Reply
  plain done : Reply

module _ {ℓ} where
  pub record Operation (Value Context : Type ℓ) : Type ℓ where
    pub name : String
    pub value : Value
    pub ctx : Context
    pub reply : Reply

pub data DoneError : Type 0 where
  already_called : DoneError

abbrev pub verdict_of : Option String → Verdict
verdict_of (some text) = failed
verdict_of none = succeeded

-- `done`: the verdicts given so far are those of all put callbacks, in order.
finish : Reply → Option String → List (ℕ × Verdict) → Result DoneError (List (ℕ × Verdict))
finish done error given = err already_called
finish plain error given = ok given
finish (notify n) error given = ok (given ++ ((n, verdict_of error) ∷ []))

pub complete :
    Reply → Option String → List (ℕ × Verdict) → Result DoneError (List (ℕ × Verdict)) × Reply
unfolding finish
complete reply error given = (finish reply error given, done)

-- Of the first two calls of `done` on an operation that is not done yet, whatever they are called
-- with, the first gets through and the second is refused; the first answers the callback at most
-- once, and with failure exactly when it carries an error.
pub complete-twice :
    (reply : Reply) (e₁ e₂ : Option String) (g₁ g₂ : List (ℕ × Verdict))
    → reply ≢ done
    → let r = complete reply e₁ g₁ in
      ((g : List (ℕ × Verdict)) × (r.0 ≡ ok g)
        × ((g ≡ g₁) ⊎ ((n : ℕ) × (reply ≡ notify n) × (g ≡ g₁ ++ ((n, verdict_of e₁) ∷ [])))))
      × ((complete r.1 e₂ g₂).0 ≡ err already_called)
unfolding complete
complete-twice done e₁ e₂ g₁ g₂ h = absurd (h refl)
complete-twice plain e₁ e₂ g₁ g₂ h = ((g₁, refl, inl refl), refl)
complete-twice (notify n) e₁ e₂ g₁ g₂ h =
    ((g₁ ++ ((n, verdict_of e₁) ∷ []), refl, inr (n, refl, refl)), refl)
