-- ===== src/PvaServer/Source/Channels.antt =====
-- src/pva/server.rs, `notify_channel_open` and `notify_channel_close`: which PV a channel is charged to.
use repics.Prelude.{
  ℕ, ◌≡◌, refl, ap, ◌∙◌, sym, inl, inr, false, String, string_eq, ◌==◌, Option, none, some, List,
  [], ◌∷◌, ◌++◌, append-nil, append_assoc, Result, ok, err, arith, if◌then◌else◌, Bool-cases,
}
use repics.Prelude.Map.{get, get-insert, get-remove}
use repics.Epics.Shared.{SourceLib}
use repics.PvaServer.Source.{
  WireName, utf8, lossy, Source, AddError, is_nil, queue_or_empty, new, add, inserted, remove_pv,
  entry, attach, notify_channel_open, left, detach, notify_channel_close, text_of,
}

pub data Call : Type 0 where
  adds : String → ℕ → Call
  removes : String → Call
  opens closes : WireName → Call

-- The source, with the entries that each name's channels were attached to and detached from so far.
pub record Run (I : SourceLib) : Type 0 where
  pub source : Source I
  pub attached : String → List ℕ
  pub detached : String → List ℕ

abbrev log : (String → List ℕ) → WireName → Option ℕ → String → List ℕ
log f (utf8 name) (some r) k = if name == k then f k ++ (r ∷ []) else f k
log f _ _ k = f k

is_nil-append : (q : List ℕ) (e : ℕ) → is_nil (q ++ (e ∷ [])) ≡ false
is_nil-append [] e = refl
is_nil-append (x ∷ q) e = refl

module _ {I : SourceLib} where
  kept : Source I → Result AddError (Source I) → Source I
  kept s (ok s') = s'
  kept s (err e) = s

  call : Run I → Call → Run I
  unfolding kept
  call r (adds name e) = record r { source = kept r.source (add r.source name e) }
  call r (removes name) = record r { source = (remove_pv r.source name).1 }
  call r (opens name) =
      let (e, s) = notify_channel_open r.source name in
      record r { source = s; attached = log r.attached name e }
  call r (closes name) =
      let (e, s) = notify_channel_close r.source name in
      record r { source = s; detached = log r.detached name e }

  pub run : Run I → List Call → Run I
  unfolding call
  run r [] = r
  run r (c ∷ cs) = run (call r c) cs

  pub start : Run I
  start = record { source = new; attached = λ k. []; detached = λ k. [] }

  -- The queue of a name, empty if there is none; a stored queue is never empty.
  pub record IsBalanced (r : Run I) : Type 0 where
    pub balance :
        (k : String) → r.detached k ++ queue_or_empty (get k r.source.attached) ≡ r.attached k
    pub not_empty : (k : String) (q : List ℕ) → get k r.source.attached ≡ some q → is_nil q ≡ false

  add-attached :
      (s : Source I) (name : String) (r : ℕ) → (kept s (add s name r)).attached ≡ s.attached
  unfolding kept add inserted
  add-attached s name r = ground arith

  opens-IsBalanced :
      (r : Run I) (name : String) (e : Option ℕ)
      → IsBalanced r
      → IsBalanced (record r {
        source = (attach r.source name e).1;
        attached = log r.attached (utf8 name) (attach r.source name e).0;
      })
  unfolding attach
  opens-IsBalanced r name none i = i
  opens-IsBalanced r name (some e) i = record {
    balance = λ k. elim (Bool-cases (name == k)) [
      | inl same ↦ ground (
        arith,
        get-insert name k (queue_or_empty (get name r.source.attached) ++ (e ∷ []))
            r.source.attached,
        append_assoc (r.detached k) (queue_or_empty (get k r.source.attached)) (e ∷ []),
        i.balance k,
        string_eq.equal_iff name k,
      )
      | inr other ↦ ground (
        arith,
        get-insert name k (queue_or_empty (get name r.source.attached) ++ (e ∷ []))
            r.source.attached,
        i.balance k,
      )
    ];
    not_empty = λ k q h. ground (
      arith,
      h,
      i.not_empty k q,
      is_nil-append (queue_or_empty (get name r.source.attached)) e,
      get-insert name k (queue_or_empty (get name r.source.attached) ++ (e ∷ [])) r.source.attached,
    );
  }

  closes-IsBalanced :
      (r : Run I) (name : String) (q : Option (List ℕ))
      → get name r.source.attached ≡ q
      → IsBalanced r
      → IsBalanced (record r {
        source = (detach r.source name q).1;
        detached = log r.detached (utf8 name) (detach r.source name q).0;
      })
  unfolding detach left
  closes-IsBalanced r name none e i = i
  closes-IsBalanced r name (some []) e i = let f = i.not_empty name [] e in ground (arith, f)
  closes-IsBalanced r name (some (x ∷ [])) e i = record {
    balance = λ k. ground (
      arith,
      e,
      get-remove name k r.source.attached,
      i.balance k,
      string_eq.equal_iff name k,
      append-nil (r.detached k ++ (x ∷ [])),
    );
    not_empty = λ k p h. ground (arith, h, get-remove name k r.source.attached, i.not_empty k p);
  }
  closes-IsBalanced r name (some (x ∷ y ∷ q)) e i = record {
    balance = λ k. ground (
      arith,
      e,
      get-insert name k (y ∷ q) r.source.attached,
      i.balance k,
      string_eq.equal_iff name k,
      append_assoc (r.detached k) (x ∷ []) (y ∷ q),
    );
    not_empty =
        λ k p h. ground (arith, h, get-insert name k (y ∷ q) r.source.attached, i.not_empty k p);
  }

  call-IsBalanced : (r : Run I) (c : Call) → IsBalanced r → IsBalanced (call r c)
  unfolding call notify_channel_open notify_channel_close text_of entry
  call-IsBalanced r (adds name e) i =
      let q = add-attached r.source name e in
      record {
        balance = λ k. ground (arith, q, i.balance k);
        not_empty = λ k p h. i.not_empty k p (ap (get k) (sym q) ∙ h);
      }
  call-IsBalanced r (removes name) i =
      unfold remove_pv in record { balance = i.balance; not_empty = i.not_empty }
  call-IsBalanced r (opens (utf8 name)) i = opens-IsBalanced r name (get name r.source.entries) i
  call-IsBalanced r (opens (lossy name)) i =
      unfold attach in record { balance = i.balance; not_empty = i.not_empty }
  call-IsBalanced r (closes (utf8 name)) i =
      closes-IsBalanced r name (get name r.source.attached) refl i
  call-IsBalanced r (closes (lossy name)) i = record {
    balance = i.balance;
    not_empty = i.not_empty;
  }

  run-IsBalanced : (r : Run I) (cs : List Call) → IsBalanced r → IsBalanced (run r cs)
  unfolding run
  run-IsBalanced r [] i = i
  run-IsBalanced r (c ∷ cs) i = run-IsBalanced (call r c) cs (call-IsBalanced r c i)

module _ (I : SourceLib) where
  -- Whatever is added, removed, opened and closed: the PVs that channels of a name were detached
  -- from, followed by those in the name's queue, are the PVs that they were attached to, in order. So
  -- a close is charged to the oldest channel, to the PV it was made against, though that may be
  -- removed by then; and no empty queue is kept.
  pub run-start-IsBalanced :
      (cs : List Call)
      → let r = run (start {I = I}) cs in
        ((k : String) → r.detached k ++ queue_or_empty (get k r.source.attached) ≡ r.attached k)
        × ((k : String) (q : List ℕ) → get k r.source.attached ≡ some q → is_nil q ≡ false)
  run-start-IsBalanced cs =
      let i = run-IsBalanced (start {I = I}) cs start-IsBalanced in (i.balance, i.not_empty)
    where
      start-IsBalanced : IsBalanced (start {I = I})
      start-IsBalanced =
          unfold start new get in record { balance = λ k. refl; not_empty = λ k q h. cc }
