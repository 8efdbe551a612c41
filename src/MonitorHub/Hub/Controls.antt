-- ===== src/MonitorHub/Hub/Controls.antt =====
-- src/hub.rs, `MonitorHub`: what a task hears on its control channel.
use repics.Prelude.{
  ℕ, ◌≤◌, ◌<◌, ◌≡◌, refl, Bool, true, false, ◌||◌, String, none, some, List, [], ◌∷◌, ◌++◌, arith,
  nat_eq, length, length-append, Option-cases, inl, inr,
}
use repics.Prelude.Map.{Map, get, remove, get-insert, get-remove, get-nil}
use repics.Epics.Client.{CaTypes}
use repics.MonitorHub.Subscription.{SubscribeArgs}
use repics.MonitorHub.Hub.{
  Ctrl, close, pause, resume, Hub, new, send_to, send_ctrl, subscribe, close_subscription,
  pause_subscription, resume_subscription, close_hub,
}

pub data Call (C : CaTypes) : Type 0 where
  subscribes : String → SubscribeArgs C → Call C
  closes pauses resumes : ℕ → Call C
  closes_hub : Call C

abbrev is_close : Ctrl → Bool
is_close close = true
is_close _ = false

abbrev has_close : List Ctrl → Bool
has_close [] = false
has_close (c ∷ cs) = is_close c || has_close cs

-- Nothing comes after `Close`.
abbrev pub close_is_last : List Ctrl → Bool
close_is_last [] = true
close_is_last (close ∷ []) = true
close_is_last (close ∷ c ∷ cs) = false
close_is_last (pause ∷ cs) = close_is_last cs
close_is_last (resume ∷ cs) = close_is_last cs

has_close-append :
    (cs : List Ctrl) (c : Ctrl) → has_close (cs ++ (c ∷ [])) ≡ (has_close cs || is_close c)
has_close-append [] c = ground arith
has_close-append (x ∷ cs) c = ground (arith, has_close-append cs c)

close_is_last-append :
    (cs : List Ctrl) (c : Ctrl)
    → has_close cs ≡ false
    → close_is_last cs ≡ true
    → close_is_last (cs ++ (c ∷ [])) ≡ true
close_is_last-append [] close h l = refl
close_is_last-append [] pause h l = refl
close_is_last-append [] resume h l = refl
close_is_last-append (close ∷ cs) c h l = cc
close_is_last-append (pause ∷ cs) c h l = close_is_last-append cs c h l
close_is_last-append (resume ∷ cs) c h l = close_is_last-append cs c h l

module _ {C : CaTypes} where
  -- Each `subscribe` makes a channel of its own, numbered in turn.
  call : Hub C → Call C → Hub C
  call h (subscribes name args) = (subscribe h name args (length h.spawned)).1
  call h (closes id) = close_subscription h id
  call h (pauses id) = pause_subscription h id
  call h (resumes id) = resume_subscription h id
  call h closes_hub = close_hub h

  pub run : Hub C → List (Call C) → Hub C
  unfolding call
  run h [] = h
  run h (c ∷ cs) = run (call h c) cs

  record Inv (h : Hub C) : Type 0 where
    known : (id tx : ℕ) → get id h.subs ≡ some tx → tx < length h.spawned
    unique : (i j tx : ℕ) → get i h.subs ≡ some tx → get j h.subs ≡ some tx → i ≡ j
    running : (id tx : ℕ) → get id h.subs ≡ some tx → has_close (h.controls tx) ≡ false
    quiet : (tx : ℕ) → length h.spawned ≤ tx → h.controls tx ≡ []
    order : (tx : ℕ) → close_is_last (h.controls tx) ≡ true

  new-Inv : Inv (new {C = C})
  unfolding new
  new-Inv = record {
    known = λ id tx h. ground (arith, h, get-nil {V = ℕ} id);
    unique = λ i j tx h k. ground (arith, h, get-nil {V = ℕ} i);
    running = λ id tx h. refl;
    quiet = λ tx h. refl;
    order = λ tx. refl;
  }

  subscribe-Inv :
      (h : Hub C) (name : String) (args : SubscribeArgs C)
      → Inv h
      → Inv (subscribe h name args (length h.spawned)).1
  unfolding subscribe
  subscribe-Inv h name args v =
      let n = length-append h.spawned ((h.next_id, name, args, length h.spawned) ∷ []) in
      let g = λ (k : ℕ). get-insert h.next_id k (length h.spawned) h.subs in
      record {
        known = λ id tx e. ground (arith, n, g id, e, v.known id tx);
        unique = λ i j tx e f.
            ground (arith, g i, g j, e, f, v.known i tx, v.known j tx, v.unique i j tx);
        running = λ id tx e. ground (arith, g id, e, v.running id tx, v.quiet (length h.spawned));
        quiet = λ tx le. ground (arith, n, v.quiet tx);
        order = v.order;
      }

  -- A pause or a resume, or a close that has taken the subscription out.
  send_to-Inv :
      (h : Hub C) (subs : Map ℕ ℕ) (id : ℕ) (c : Ctrl)
      → Inv h
      → ((k tx : ℕ) → get k subs ≡ some tx → get k h.subs ≡ some tx)
      → (is_close c ≡ true → get id subs ≡ none)
      → Inv (send_to (record h { subs = subs }) c (get id h.subs))
  send_to-Inv h subs id c v sub gone = elim (Option-cases (get id h.subs)) [
    | inl e ↦ rw e (
        unfold send_to in
        record {
          known = λ k tx f. v.known k tx (sub k tx f);
          unique = λ i j tx f g. v.unique i j tx (sub i tx f) (sub j tx g);
          running = λ k tx f. v.running k tx (sub k tx f);
          quiet = v.quiet;
          order = v.order;
        })
    | inr (t, e) ↦ rw e (
        unfold send_to in
        record {
          known = λ k tx f. v.known k tx (sub k tx f);
          unique = λ i j tx f g. v.unique i j tx (sub i tx f) (sub j tx g);
          running = λ k tx f. ground (
            arith,
            v.running k tx (sub k tx f),
            v.unique k id tx (sub k tx f),
            e,
            f,
            gone,
            has_close-append (h.controls tx) c,
          );
          quiet = λ tx le. ground (arith, v.known id t e, v.quiet tx le);
          order = λ tx.
              ground
                (arith, v.order tx, v.running id tx, e, close_is_last-append (h.controls tx) c);
        })
  ]

  call-Inv : (h : Hub C) (c : Call C) → Inv h → Inv (call h c)
  unfolding call close_subscription pause_subscription resume_subscription send_ctrl
  call-Inv h (subscribes name args) v = subscribe-Inv h name args v
  call-Inv h (closes id) v =
      send_to-Inv h (remove id h.subs) id close v
        (λ k tx f. ground (arith, f, get-remove id k h.subs))
        (λ e. ground (arith, get-remove id id h.subs))
  call-Inv h (pauses id) v = send_to-Inv h h.subs id pause v (λ k tx f. f) (λ e. cc)
  call-Inv h (resumes id) v = send_to-Inv h h.subs id resume v (λ k tx f. f) (λ e. cc)
  call-Inv h closes_hub v =
      unfold close_hub in
      record {
        known = λ id tx e. ground (arith, e, get-nil {V = ℕ} id);
        unique = λ i j tx e f. ground (arith, e, get-nil {V = ℕ} i);
        running = λ id tx e. ground (arith, e, get-nil {V = ℕ} id);
        quiet = v.quiet;
        order = v.order;
      }

  run-Inv : (h : Hub C) (cs : List (Call C)) → Inv h → Inv (run h cs)
  unfolding run
  run-Inv h [] v = v
  run-Inv h (c ∷ cs) v = run-Inv (call h c) cs (call-Inv h c v)

module _ (C : CaTypes) where
  -- Whatever is called on a new hub, nothing follows a `Close` on a control channel, so a task is
  -- told to close at most once and is not paused or resumed after that; and no two registered
  -- subscriptions share a control channel.
  pub run-new-closes :
      (cs : List (Call C))
      → let h = run (new {C = C}) cs in
        ((tx : ℕ) → close_is_last (h.controls tx) ≡ true)
        × ((i j tx : ℕ) → get i h.subs ≡ some tx → get j h.subs ≡ some tx → i ≡ j)
  run-new-closes cs = let v = run-Inv (new {C = C}) cs (new-Inv {C = C}) in (v.order, v.unique)
