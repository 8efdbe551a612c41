-- ===== src/PvaHub/Hub/Examples.antt =====
-- One monitor of src/pva/hub.rs, from `subscribe` on.
use repics.Prelude.{◌+◌, ◌<◌, ◌≡◌, refl, arith, true, false, nat_eq}
use repics.Prelude.Map.{get, insert, is_some}
use repics.Epics.Pvdata.{plain_pvdata}
use repics.PvaHub.Monitor.{opening_queue, items-signal}
use repics.PvaHub.Hub.{
  Hub, deliver, subscribe_begin, subscribe_opened, subscribe_end, tokens, set_control,
}
use repics.PvaHub.Hub.Steps.{Reach, here, next, begin, opened, done, new, is_nil, tokens-Reach}

abbrev begun : Hub plain_pvdata
begun = subscribe_begin (new plain_pvdata) 4

abbrev controlled : Hub plain_pvdata
controlled = subscribe_opened begun 1 7

abbrev subscribed : Hub plain_pvdata
subscribed = subscribe_end controlled 1

one_is_new : 1 < controlled.next_id
unfolding new subscribe_begin subscribe_opened
one_is_new = omega arith

ids_left : (new plain_pvdata).next_id + 1 < 4294967296
unfolding new
ids_left = omega arith

reached : Reach (new plain_pvdata) subscribed
reached =
    next (next (next here (begin (new plain_pvdata) 4 ids_left)) (opened begun 1 7))
      (done controlled 1 one_is_new)

registered : is_some (get 1 subscribed.subs) ≡ true
unfolding new subscribe_begin subscribe_opened subscribe_end deliver set_control get insert
registered = refl

waiting : is_nil (subscribed.queues 1).items ≡ false
unfolding new subscribe_begin subscribe_opened subscribe_end deliver opening_queue
waiting = ground (arith, items-signal (opening_queue {P = plain_pvdata} 4))

open_hub : subscribed.closed ≡ false
unfolding new subscribe_begin subscribe_opened subscribe_end deliver
open_hub = refl

over : subscribed.opening 1 ≡ false
unfolding new subscribe_begin subscribe_opened subscribe_end deliver
over = refl

tokens-Reach_example : tokens 1 subscribed ≡ 1
tokens-Reach_example = tokens-Reach 1 subscribed reached open_hub registered over waiting
