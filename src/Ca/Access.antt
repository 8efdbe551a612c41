-- ===== src/Ca/Access.antt =====
-- src/ca.rs, `ensure_connected`, `do_get`, `do_put`: what a channel call asks of the client library,
-- and when. The answers of the library are in the channel.
use repics.Prelude.{
  ℕ, ◌+◌, ◌≡◌, refl, ◌⊎◌, inl, inr, Bool, true, false, ◌&&◌, Option, none, some, Result, ok, err,
  ◌>>=◌, arith, eqb, if◌then◌else◌, Bool-cases, Result-cases,
}
use repics.Prelude.Int.{ℤ}
use repics.Ca.Counts.{ReqCount, read_count}

pub data CaOp : Type 0 where
  read write : CaOp

pub data CallError (E : Type 0) : Type 0 where
  -- `map_ca` of an error of the library.
  failed : E → CallError E
  access_denied : CaOp → CallError E

pub record Rights : Type 0 where
  pub read : Bool
  pub write : Bool

-- What the channel answers, in the order in which it is asked.
pub record Channel (E : Type 0) : Type 0 where
  -- `native_field_type`, before and after the connection.
  pub early_type : Result E ℕ
  pub native_type : Result E ℕ
  pub wait_connected : Result E (Unit {0})
  pub access_rights : Result E Rights
  pub element_count : Result E ℕ

pub record GetRequest : Type 0 where
  pub dbr : Option ℕ
  pub form : ℕ
  pub enum_as_string : Bool

abbrev dbr_string_base : ℕ
dbr_string_base = 0

abbrev dbr_enum_base : ℕ
dbr_enum_base = 3

pub allowed : CaOp → Rights → Bool
allowed write rights = rights.write
allowed read rights = rights.read

module _ {E : Type 0} where
  lifted : {A : Type 0} → Result E A → Result (CallError E) A
  lifted (ok a) = ok a
  lifted (err e) = err (failed e)

  connected : Channel E → Result (CallError E) (Unit {0})
  unfolding lifted
  connected ch = elim ch.early_type [ ok _ ↦ ok tt | err _ ↦ lifted ch.wait_connected ]

  pub ensure_connected : Channel E → CaOp → Result (CallError E) (Unit {0})
  unfolding connected allowed lifted
  ensure_connected ch op = do
    _ ← connected ch
    rights ← lifted ch.access_rights
    if allowed op rights then ok tt else err (access_denied op)

base_of : GetRequest → ℕ → ℕ
base_of req native = elim req.dbr [
  | some b ↦ b
  | none ↦ if req.enum_as_string && eqb native dbr_enum_base then dbr_string_base else native
]

module _ {E : Type 0} where
  read_rest : Channel E → GetRequest → ℤ → Result (CallError E) (ℕ × ReqCount)
  unfolding lifted base_of
  read_rest ch req count = do
    native ← lifted ch.native_type
    c ← lifted (read_count ch.element_count count)
    ok (base_of req native + req.form, c)

  -- `do_get` up to the read: the wire type and the count that it asks for.
  pub read_request : Channel E → GetRequest → ℤ → Result (CallError E) (ℕ × ReqCount)
  unfolding ensure_connected read_rest
  read_request ch req count = do _ ← ensure_connected ch read; read_rest ch req count

-- `PutRequest`, and the calls that `do_put` makes.
pub data PutRequest (V : Type 0) : Type 0 where
  str str_array typed : V → PutRequest V

pub data PutCall (V : Type 0) : Type 0 where
  put_string put_string_nowait put_string_array put_string_array_nowait put_with_timeout
        put_nowait :
      V → PutCall V

put_call : {V : Type 0} → PutRequest V → Bool → PutCall V
put_call (str s) true = put_string s
put_call (str s) false = put_string_nowait s
put_call (str_array a) true = put_string_array a
put_call (str_array a) false = put_string_array_nowait a
put_call (typed v) true = put_with_timeout v
put_call (typed v) false = put_nowait v

module _ {E V : Type 0} where
  -- `do_put` up to the write.
  pub write_request : Channel E → PutRequest V → Bool → Result (CallError E) (PutCall V)
  unfolding ensure_connected put_call
  write_request ch req wait = do _ ← ensure_connected ch write; ok (put_call req wait)

module _ {E : Type 0} where
  -- The channel is up, at once or after the wait, and the server grants this right.
  pub record IsGranted (ch : Channel E) (right : Rights → Bool) : Type 0 where
    pub up : ((t : ℕ) × (ch.early_type ≡ ok t)) ⊎ (ch.wait_connected ≡ ok tt)
    pub granted : (rights : Rights) × (ch.access_rights ≡ ok rights) × (right rights ≡ true)

  connected-up :
      (ch : Channel E)
      → connected ch ≡ ok tt
      → ((t : ℕ) × (ch.early_type ≡ ok t)) ⊎ (ch.wait_connected ≡ ok tt)
  unfolding connected lifted
  connected-up ch h = elim (Result-cases ch.early_type) [
    | inl (t, e) ↦ inl (t, e)
    | inr (x, e) ↦ inr (ground (arith, e, h))
  ]

  gate :
      (ch : Channel E) (op : CaOp) (r : Result (CallError E) (Unit {0})) (a : Result E Rights)
      → connected ch ≡ r
      → ch.access_rights ≡ a
      → (r >>= λ _.
          lifted a >>= λ rights. if allowed op rights then ok tt else err (access_denied op))
        ≡ ok tt
      → IsGranted ch (allowed op)
  unfolding lifted
  gate ch op (err x) a e f h = cc
  gate ch op (ok _) (err x) e f h = cc
  gate ch op (ok _) (ok rights) e f h = elim (Bool-cases (allowed op rights)) [
    | inl yes_sir ↦ record { up = connected-up ch e; granted = (rights, f, yes_sir) }
    | inr refused ↦ ground (arith, refused, h)
  ]

  ensure_connected-IsGranted :
      (ch : Channel E) (op : CaOp) → ensure_connected ch op ≡ ok tt → IsGranted ch (allowed op)
  unfolding ensure_connected
  ensure_connected-IsGranted ch op h = gate ch op (connected ch) ch.access_rights refl refl h

  first_ok :
      {B : Type 0} (r : Result (CallError E) (Unit {0})) (k : Result (CallError E) B) {b : B}
      → (r >>= λ _. k) ≡ ok b
      → r ≡ ok tt
  first_ok (ok _) k h = refl
  first_ok (err x) k h = cc

module _ {E V : Type 0} where
  -- No read is sent before the channel is up and the server grants reading, and no write before it
  -- grants writing.
  pub requests-IsGranted :
      (ch : Channel E) (get : GetRequest) (count : ℤ) (put : PutRequest V) (wait : Bool)
      → ((out : ℕ × ReqCount)
          → read_request ch get count ≡ ok out
          → IsGranted ch (λ rights. rights.read))
        × ((call : PutCall V)
            → write_request ch put wait ≡ ok call
            → IsGranted ch (λ rights. rights.write))
  unfolding read_request write_request allowed
  requests-IsGranted ch get count put wait = (
    λ out h.
        ensure_connected-IsGranted ch read
          (first_ok (ensure_connected ch read) (read_rest ch get count) h),
    λ call h.
        ensure_connected-IsGranted ch write
          (first_ok (ensure_connected ch write) (ok (put_call put wait)) h),
  )
