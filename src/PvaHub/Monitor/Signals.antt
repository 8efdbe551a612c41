-- ===== src/PvaHub/Monitor/Signals.antt =====
-- src/pva/hub.rs, `Monitor`: when a method tells the hub.
use repics.Prelude.{◌≡◌, Bool, true, not, arith}
use repics.Epics.Pvdata.{Pvdata}
use repics.PvaHub.Monitor.{Update, Queue, signal, push, push_value}

module _ {P : Pvdata} where
  -- A method that has run under the monitor's lock signals unless the queue was signalled already.
  pub record Signals (q q' : Queue P) (sent : Bool) : Type 0 where
    pub now : q'.signalled ≡ true
    pub told : sent ≡ not q.signalled

  pub signal-Signals : (q : Queue P) → Signals q (signal q).0 (signal q).1
  unfolding signal
  signal-Signals q = ground arith

  pub push-Signals : (q : Queue P) (u : Update P) → Signals q (push q u).0 (push q u).1
  unfolding push signal
  push-Signals q u = ground arith

  pub push_value-Signals :
      (q : Queue P) (d : P.Desc) (v : P.Field) (c : P.bits.Bits)
      → Signals q (push_value q d v c).0 (push_value q d v c).1
  unfolding push_value push signal
  push_value-Signals q d v c = ground arith
