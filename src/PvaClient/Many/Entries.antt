-- ===== src/PvaClient/Many/Entries.antt =====
-- src/pva/client.rs, `get_many`: what its entries are.
use mathlib.Core.Path.{subst}
use repics.Prelude.{
  refl, err, none, some, Option, ℕ, suc, ◌≡◌, ap, ◌∙◌, String, Option, List, [], ◌∷◌, length,
  Result, ok, bind-ok, ok-injective, eqb, not, if-split, arith,
}
use repics.Epics.Pvdata.{Pvdata}
use repics.PvaServer.Operation.{Root}
use repics.PvaValue.{DescLib}
use repics.Runtime.Many.{
  Blocked, returned, unwound, block_on, Entry, outcome, join_all, to_entry, results_to_py,
}
use repics.Text.{Text}
use repics.PvaClient.Many.{
  ClientLib, Ask, Answer, parse_request, read_of, asks, task, tasks, ending, get_one, get, get_many,
}

-- What a list of results has in place of a call: its outcome, or its panic, as a task reports it.
pub in_place : {J E A : Type 0} → (J → E) → Blocked J E A → Result E A
in_place on_join_error (returned r) = r
in_place on_join_error (unwound j) = err (on_join_error j)

module _ {P : Pvdata} (D : DescLib P) (C : ClientLib P) where
  module _ (into_py : Root P → Result C.Error C.Object) (world : ℕ → Ask P C → Answer P C)
      (timeout : Option C.Seconds) where
    -- The entries of the names, from a number on: each is what `get` gives for its name and request
    -- alone, or the exception that it raises, or that reports its panic.
    pub data Each
        : ℕ → List String → List (Option Text) → List (Entry C.Error C.Object) → Type 0 where
      no_more : {i : ℕ} → Each i [] [] []
      and_then :
          {i : ℕ} {n : String} {r : Option Text} {ns : List String} {rs : List (Option Text)}
          {e : Entry C.Error C.Object} {es : List (Entry C.Error C.Object)}
          → to_entry into_py (in_place C.join_error (get D C world i n r timeout)) ≡ ok e
          → Each (suc i) ns rs es
          → Each i (n ∷ ns) (r ∷ rs) (e ∷ es)

    entries_of : ℕ → List (Ask P C) → Result C.Error (List (Entry C.Error C.Object))
    entries_of i futs = results_to_py into_py (join_all C.join_error (tasks D C world i futs))

    get-task :
        (i : ℕ) (n : String) (r : Option Text) (req : Option C.Request)
        → parse_request C r ≡ ok req
        → in_place C.join_error (get D C world i n r timeout)
          ≡ outcome C.join_error
              (task D C (read_of C n req timeout) (world i (read_of C n req timeout)))
    unfolding get
    get-task i n r req h =
        ap (λ q. in_place C.join_error (get_one D C world i n timeout q)) h
        ∙ ended (world i (read_of C n req timeout)).panics refl
      where
        ended :
            (o : Option C.JoinError)
            → (world i (read_of C n req timeout)).panics ≡ o
            → in_place C.join_error (get_one D C world i n timeout (ok req))
              ≡ outcome C.join_error
                  (task D C (read_of C n req timeout) (world i (read_of C n req timeout)))
        ended none e = unfold get_one task ending block_on outcome in_place in rw e refl
        ended (some j) e = unfold get_one task ending block_on outcome in_place in rw e refl

    asks-Each :
        (i : ℕ) (ns : List String) (rs : List (Option Text)) (futs : List (Ask P C))
        (es : List (Entry C.Error C.Object))
        → length ns ≡ length rs
        → asks C ns rs timeout ≡ ok futs
        → entries_of i futs ≡ ok es
        → Each i ns rs es
    unfolding asks entries_of tasks join_all results_to_py
    asks-Each i [] [] futs es l h k =
        subst (Each i [] []) (ok-injective (ap (entries_of i) (ok-injective h) ∙ k)) no_more
    asks-Each i [] (r ∷ rs) futs es l h k = absurd (omega (arith, l))
    asks-Each i (n ∷ ns) [] futs es l h k = absurd (omega (arith, l))
    asks-Each i (n ∷ ns) (r ∷ rs) futs es l h k =
        let (req, q, h₁) = bind-ok (parse_request C r) _ futs h in
        let (later, x, h₂) = bind-ok (asks C ns rs timeout) _ futs h₁ in
        let (e, y, k₁) =
          bind-ok (to_entry into_py _) _ es (ap (entries_of i) (ok-injective h₂) ∙ k) in
        let (rest, z, k₂) = bind-ok (entries_of (suc i) later) _ es k₁ in
        subst (Each i (n ∷ ns) (r ∷ rs)) (ok-injective k₂) (
          and_then (ap (to_entry into_py) (get-task i n r req q) ∙ y)
            (asks-Each (suc i) ns rs later rest (omega (arith, l)) x z))

    -- A `get_many` that returns has one entry per name, in order, and each is what `get` gives for that
    -- name and its request with the same timeout, or the exception that it raises; where that
    -- `get` panics, it is the exception that reports a panic. It was given one request per name.
    pub get_many-Each :
        (names : List String) (requests : List (Option Text))
        {entries : List (Entry C.Error C.Object)}
        → get_many D C into_py world names requests timeout ≡ ok entries
        → Each 0 names requests entries × (length names ≡ length requests)
    unfolding get_many entries_of
    get_many-Each names requests {entries} h =
        if-split (not (eqb (length names) (length requests))) _ _ (λ _ k. cc)
          (λ same k.
            let (futs, x, z) = bind-ok (asks C names requests timeout) _ entries k in
            let l : length names ≡ length requests = ground (arith, same) in
            (asks-Each 0 names requests futs entries l x z, l))
          h
