-- ===== src/Ca/Examples.antt =====
-- A batch of src/ca.rs with an error behind two updates, and a read and a write.
use repics.Prelude.{ℕ, ◌≡◌, true, false, none, [], ◌∷◌, ◌++◌, ok, err}
use repics.Prelude.Int.{pos}
use repics.Ca.Counts.{ReqCount}
use repics.Ca.Access.{
  Channel, GetRequest, read_request, PutCall, typed, write_request, IsGranted, requests-IsGranted,
}
use repics.Ca.Batches.{Monitor, recv_batch}
use repics.Ca.Batches.Order.{coming, handed, IsBatch, recv_batch-coming}

abbrev monitor : Monitor ℕ ℕ
monitor = record {
  handle = record { queue = ok 1 ∷ ok 2 ∷ err 7 ∷ ok 3 ∷ []; ended = false };
  stashed = none;
}

recv_batch-coming_example :
    let (out, m') = recv_batch 0 monitor in
    (handed out ++ coming m' ≡ coming monitor) × IsBatch 0 out
recv_batch-coming_example = recv_batch-coming 0 monitor

abbrev channel : Channel ℕ
channel = record {
  early_type = err 1;
  native_type = ok 6;
  wait_connected = ok tt;
  access_rights = ok (record { read = true; write = false });
  element_count = ok 4;
}

abbrev native_read : GetRequest
native_read = record { dbr = none; form = 7; enum_as_string = false }

requests-IsGranted_example :
    ((out : ℕ × ReqCount)
      → read_request channel native_read (pos 9) ≡ ok out
      → IsGranted channel (λ rights. rights.read))
    × ((call : PutCall ℕ)
        → write_request channel (typed 3) true ≡ ok call
        → IsGranted channel (λ rights. rights.write))
requests-IsGranted_example = requests-IsGranted channel native_read (pos 9) (typed 3) true
