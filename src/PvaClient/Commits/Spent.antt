-- ===== src/PvaClient/Commits/Spent.antt =====
-- src/pva/client.rs, `put_commit_many`: what is sent, and which puts can be committed no more.
use repics.Prelude.{
  ℕ, ◌≡◌, refl, ap, ◌∙◌, inl, inr, arith, Bool, true, false, ◌||◌, Option, none, some, List, [],
  ◌∷◌, ◌++◌, length, Result, ok, err, eqb, if◌then◌else◌, Bool-cases,
}
use repics.PvaClient.{
  CommitError, already_committed, nothing_to_put, view_cannot_be_sent, put_leaves, take,
}
use repics.PvaClient.Commits.{
  Puts, CommitManyError, failed, set_put, or_committed, take_from, commit_of, with_rest, commits,
  or_failed, put_commit_many,
}

abbrev pub among : ℕ → List ℕ → Bool
among j [] = false
among j (i ∷ ops) = eqb j i || among j ops

module _ {Op Present : Type 0} where
  -- These puts have lost the library's operation, and the others are as they were.
  pub Spends : Puts Op Present → Puts Op Present → List ℕ → Type 0
  Spends puts after ops =
      (j : ℕ)
      → (among j ops ≡ true → (after j).inner ≡ none) × (among j ops ≡ false → after j ≡ puts j)

  pub spend : ℕ → Puts Op Present → Puts Op Present
  spend i puts j = if eqb j i then record (puts i) { inner = none } else puts j

  take_from-spend : (i : ℕ) (puts : Puts Op Present) → (take_from i puts).1 ≡ spend i puts
  unfolding take_from set_put take spend
  take_from-spend i puts = refl

  spend-Spends : (i : ℕ) (puts : Puts Op Present) → Spends puts (spend i puts) (i ∷ [])
  unfolding Spends spend
  spend-Spends i puts j = (λ h. rw (or_false h) refl, λ h. rw (or_false h) refl)
    where
      or_false : {a b : Bool} → (a || false) ≡ b → a ≡ b
      or_false {a} {b} h = ground (arith, h)

  Spends-cons :
      (i : ℕ) (puts after : Puts Op Present) (ops : List ℕ)
      → Spends (spend i puts) after ops
      → Spends puts after (i ∷ ops)
  unfolding Spends spend
  Spends-cons i puts after ops x j = elim (Bool-cases (among j ops)) [
    | inl e ↦ (λ _. (x j).0 e, λ h. absurd (ground (arith, e, h)))
    | inr e ↦ (
      λ h.
          let same : eqb j i ≡ true = ground (arith, e, h) in
          ap (λ p. p.inner) ((x j).1 e) ∙ rw same refl,
      λ h. let other : eqb j i ≡ false = ground (arith, e, h) in (x j).1 e ∙ rw other refl,
    )
  ]

module _ {Op Present Leaf : Type 0} where
  -- What is sent for a list of puts that are all different: of each, its own operation with the marked
  -- leaves of its value, of which there are some.
  pub data Sends (puts : Puts Op Present)
      : List ℕ → List (Option (List Leaf)) → List (Op × List Leaf) → Type 0 where
    nothing : Sends puts [] [] []
    sends :
        {i : ℕ} {op : Op} {l : Leaf} {v : List Leaf} {ops : List ℕ}
        {values : List (Option (List Leaf))} {cs : List (Op × List Leaf)}
        → (puts i).inner ≡ some op
        → among i ops ≡ false
        → Sends puts ops values cs
        → Sends puts (i ∷ ops) (some (l ∷ v) ∷ values) ((op, l ∷ v) ∷ cs)

  -- Why a put is refused, after these.
  pub data Refused (puts : Puts Op Present) (before : List ℕ)
      : ℕ → Option (List Leaf) → CommitError → Type 0 where
    was_committed :
        {i : ℕ} {v : Option (List Leaf)}
        → (puts i).inner ≡ none
        → Refused puts before i v already_committed
    named_twice :
        {i : ℕ} {v : Option (List Leaf)}
        → among i before ≡ true
        → Refused puts before i v already_committed
    unmarked : {i : ℕ} → Refused puts before i (some []) nothing_to_put
    a_view : {i : ℕ} → Refused puts before i none view_cannot_be_sent

  -- Either every put is sent and spent, or one is refused, nothing is sent, and that one and all before
  -- it are spent all the same. The others stay as they are.
  pub data Outcome (puts : Puts Op Present)
      : List ℕ
        → List (Option (List Leaf))
        → Result CommitManyError (List (Op × List Leaf))
        → Puts Op Present
        → Type 0 where
    all_sent :
        {ops : List ℕ} {values : List (Option (List Leaf))} {cs : List (Op × List Leaf)}
        {after : Puts Op Present}
        → Sends puts ops values cs
        → Spends puts after ops
        → Outcome puts ops values (ok cs) after
    lost :
        (before later : List ℕ) (sendable rest : List (Option (List Leaf)))
        (cs : List (Op × List Leaf)) {ops : List ℕ} {values : List (Option (List Leaf))} {i : ℕ}
        {v : Option (List Leaf)} {e : CommitError} {after : Puts Op Present}
        → ops ≡ before ++ (i ∷ later)
        → values ≡ sendable ++ (v ∷ rest)
        → Sends puts before sendable cs
        → Refused puts before i v e
        → Spends puts after (before ++ (i ∷ []))
        → Outcome puts ops values (err (failed e)) after

  Sends-spend :
      (i : ℕ) (puts : Puts Op Present) {ops : List ℕ} {values : List (Option (List Leaf))}
      {cs : List (Op × List Leaf)}
      → Sends (spend i puts) ops values cs
      → Sends puts ops values cs × (among i ops ≡ false)
  unfolding spend
  Sends-spend i puts nothing = (nothing, refl)
  Sends-spend i puts (sends {i = k} {op} h a x) =
      let (y, b) = Sends-spend i puts x in
      elim (Bool-cases (eqb k i)) [
        | inl e ↦ absurd (ground (arith, e, h))
        | inr e ↦ (sends (ground (arith, e, h)) a y, ground (arith, e, b))
      ]

  Refused-spend :
      (i : ℕ) (puts : Puts Op Present) (before : List ℕ) {k : ℕ} {v : Option (List Leaf)}
      {e : CommitError}
      → Refused (spend i puts) before k v e
      → Refused puts (i ∷ before) k v e
  unfolding spend
  Refused-spend i puts before (was_committed {i = k} h) = elim (Bool-cases (eqb k i)) [
    | inl e ↦ named_twice (ground (arith, e))
    | inr e ↦ was_committed (ground (arith, e, h))
  ]
  Refused-spend i puts before (named_twice h) = named_twice (ground (arith, h))
  Refused-spend i puts before unmarked = unmarked
  Refused-spend i puts before a_view = a_view

  -- A put that is taken and has leaves, before the others.
  Outcome-cons :
      (puts : Puts Op Present) (i : ℕ) (op : Op) (l : Leaf) (v : List Leaf) {ops : List ℕ}
      {values : List (Option (List Leaf))} (r : Result CommitError (List (Op × List Leaf)))
      {after : Puts Op Present}
      → (puts i).inner ≡ some op
      → Outcome (spend i puts) ops values (or_failed r) after
      → Outcome puts
          (i ∷ ops)
          (some (l ∷ v) ∷ values)
          (or_failed (with_rest (ok (op, l ∷ v)) puts (r, after)).0)
          after
  unfolding with_rest or_failed
  Outcome-cons puts i op l v (ok cs) h (all_sent s x) =
      let (y, a) = Sends-spend i puts s in all_sent (sends h a y) (Spends-cons i puts _ _ x)
  Outcome-cons puts i op l v (err e) h (lost before later sendable rest cs q z s f x) =
      let (y, a) = Sends-spend i puts s in
      lost (i ∷ before) later (some (l ∷ v) ∷ sendable) rest ((op, l ∷ v) ∷ cs) (ap (λ t. i ∷ t) q)
        (ap (λ t. some (l ∷ v) ∷ t) z) (sends h a y) (Refused-spend i puts before f)
        (Spends-cons i puts _ (before ++ (_ ∷ [])) x)

  -- The first put, by what its object holds.
  first-Outcome :
      (puts : Puts Op Present) (i : ℕ) (v : Option (List Leaf)) (ops : List ℕ)
      (values : List (Option (List Leaf))) (o : Option Op)
      (r : Result CommitError (List (Op × List Leaf))) (after : Puts Op Present)
      → (puts i).inner ≡ o
      → Outcome (spend i puts) ops values (or_failed r) after
      → let w = with_rest (commit_of (or_committed o) v) (spend i puts) (r, after) in
        Outcome puts (i ∷ ops) (v ∷ values) (or_failed w.0) w.1
  unfolding commit_of or_committed put_leaves with_rest or_failed
  first-Outcome puts i v ops values none r after h x =
      lost [] ops [] values [] refl refl nothing (was_committed h) (spend-Spends i puts)
  first-Outcome puts i none ops values (some op) r after h x =
      lost [] ops [] values [] refl refl nothing a_view (spend-Spends i puts)
  first-Outcome puts i (some []) ops values (some op) r after h x =
      lost [] ops [] values [] refl refl nothing unmarked (spend-Spends i puts)
  first-Outcome puts i (some (l ∷ v)) ops values (some op) r after h x =
      Outcome-cons puts i op l v r h x

  commits-Outcome :
      (ops : List ℕ) (values : List (Option (List Leaf))) (puts : Puts Op Present)
      → length ops ≡ length values
      → Outcome puts ops values (or_failed (commits ops values puts).0) (commits ops values puts).1
  unfolding commits take_from set_put take or_failed spend Spends
  commits-Outcome [] [] puts l =
      all_sent nothing (λ j. (λ h. absurd (ground (arith, h)), λ h. refl))
  commits-Outcome [] (v ∷ values) puts l = absurd (omega (arith, l))
  commits-Outcome (i ∷ ops) [] puts l = absurd (omega (arith, l))
  commits-Outcome (i ∷ ops) (v ∷ values) puts l =
      first-Outcome puts i v ops values (puts i).inner (commits ops values (spend i puts)).0
        (commits ops values (spend i puts)).1 refl
        (commits-Outcome ops values (spend i puts) (omega (arith, l)))

  -- `put_commit_many` with a value for each put: either the puts are all different, each put's own
  -- operation is sent with the marked leaves of its value, of which there are some, and all are spent;
  -- or one put was committed before, or named before, or its value has no marked leaf or is a view,
  -- and then it raises that error and sends nothing, and yet that put and all those before it, which
  -- could be sent, are spent. The puts after it, and those not named, stay as they were.
  pub put_commit_many-Outcome :
      (ops : List ℕ) (values : List (Option (List Leaf))) (puts : Puts Op Present)
      → length ops ≡ length values
      → Outcome puts ops values
          (put_commit_many ops values puts).0
          (put_commit_many ops values puts).1
  unfolding put_commit_many
  put_commit_many-Outcome ops values puts l =
      let same : eqb (length ops) (length values) ≡ true = ground (arith, l) in
      rw same (commits-Outcome ops values puts l)
