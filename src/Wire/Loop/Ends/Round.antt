-- ===== src/Wire/Loop/Ends/Round.antt =====
-- One round of `while (pipelining)` in wire mode brings the end of the loop nearer, or leaves it.
use pglite_build.Prelude.{
  ℕ, ◌+◌, ◌≤◌, ◌<◌, ◌≡◌, refl, Bool, true, false, ◌&&◌, Option, some, ℤ, gt_zero, arith, ltb,
  if◌then◌else◌, is_zero, is_pos,
}
use pglite_build.Wire.World.{
  Backend, World, Call, socket_backend, pq_buffer_remaining_data, ready_for_query,
}
use pglite_build.Wire.Action.{Action, ask, call, ◌>>=◌, ◌>>◌, gets, modify, pure, when}
use pglite_build.Wire.Action.Triple.{
  Triple, Stable, stable_rules, Triple-bind, Triple-gets, Triple-modify, Triple-pure, Triple-if,
  Triple-weaken, Triple-strengthen,
}
use pglite_build.Wire.Action.Triple.Calls.{Triple-ask, Stable-call, Triple-ask_any}
use pglite_build.Wire.Session.{startup_auth, startup_pass}
use pglite_build.Wire.Proto.{Next, proceed, wire_flush, switch}
use pglite_build.Wire.Loop.Blocks.{
  Label, looping, resume_on_error, flushing, handle_message, after_switch, wire_message, wire_round,
  text_round, round,
}
use pglite_build.Wire.Loop.Progress.{Progress, is_input, is_passive}
use pglite_build.Wire.Loop.Ends.Bounds.{InBounds, startup_auth-InBounds, startup_pass-InBounds}
use pglite_build.Wire.Loop.Ends.Quiet.{Below, dispatch-Below}

module _ (b : Backend) (p : Progress b) where
  open p use {unread, remaining, bound}

  -- How many rounds the loop can still make: one more than what is unread while the buffer holds
  -- something, and as for a full input when the next round has to fetch it.
  abbrev pub rounds_left : World b.State → ℕ
  rounds_left w = if ltb 0 (remaining w.rest) then unread w.rest + 1 else bound + 2

  abbrev pub rounds : World b.State → ℕ
  rounds w = if w.pipelining then rounds_left w else 0

  module _ (c l : ℕ) where
    -- Where a round may lead.
    abbrev pub Target : Option Label → World b.State → Type 0
    Target (some looping) w = InBounds b p c w × (rounds w < l)
    Target (some resume_on_error) w = InBounds b p c w
    Target (some flushing) w = InBounds b p c w
    Target _ w = ⊥

    -- After the test of the buffer: the loop goes on only if it holds something.
    abbrev Tested : World b.State → Type 0
    Tested w = Below b p c l w × (w.pipelining ≡ true → 0 < remaining w.rest)

    Tested-Target : (w : World b.State) → Tested w → Target (some looping) w
    Tested-Target w h = ground arith

    Tested-call : (x : Call) → is_input x ≡ false → is_passive x ≡ true → Stable Tested (call b x)
    Tested-call x i e =
        Stable-call b x (λ w h. ground (arith, p.bounded x w, p.quiet x w, p.passive x w))

    -- `pipelining = pq_buffer_remaining_data() > 0`, and what comes after it
    test_buffer :
        {A : Type 0} {Q : A → World b.State → Type 0} (rest : Action b.State A)
        → Triple Tested rest Q (InBounds b p c)
        → Triple
            (Below b p c l)
            (do
              left ← ask b pq_buffer_remaining_data
              modify λ w. record w { pipelining = gt_zero left }
              rest)
            Q
            (InBounds b p c)
    test_buffer rest h =
        Triple-bind {R = λ left w. Below b p c l w × (gt_zero left ≡ true → 0 < remaining w.rest)} _
          _
          (Triple-ask b pq_buffer_remaining_data λ w h. rw (p.answers w) (
            ground (
              arith,
              p.bounded pq_buffer_remaining_data w,
              p.quiet pq_buffer_remaining_data w,
              p.passive pq_buffer_remaining_data w,
            )))
          (λ left. Triple-bind {R = λ _. Tested} _ _ (Triple-modify _ (λ w h. h)) (λ _. h))

    after_switch-Target :
        (next : Next) → Triple (Below b p c l) (after_switch b next) Target (InBounds b p c)
    unfolding after_switch
    after_switch-Target wire_flush = Triple-pure _ (λ w h. h.0)
    after_switch-Target proceed =
        Triple-bind {R = λ more w. Below b p c l w × (more ≡ w.pipelining)} _ _
          (Triple-gets _ (λ w h. (h, refl)))
          λ more.
            Triple-bind {R = λ _. Tested} _ _
              (Triple-if more _ _
                (λ e.
                  Triple-strengthen _
                    (test_buffer _ (Triple-weaken _ ready (λ _ w h. h) (λ w h. h.0.0)))
                    (λ w h. h.0))
                (λ e. Triple-pure tt (λ w h. ground arith)))
              (λ _. Triple-pure _ Tested-Target)
      where
        ready : Stable Tested (do
          ready ← gets λ w. w.pipelining && w.send_ready_for_query
          dest ← gets λ w. w.shared.where_to_send_output
          when ready (do
            call b (ready_for_query dest)
            modify λ w. record w { send_ready_for_query = false }))
        ready = search (stable_rules, Tested-call) depth 20

    Tested-then :
        {A : Type 0} {f : A → Action b.State (Option Label)} (m : Action b.State A)
        → Stable Tested m
        → ((a : A) → Triple Tested (f a) Target (InBounds b p c))
        → Triple Tested (m >>= f) Target (InBounds b p c)
    Tested-then m h k =
        Triple-bind {R = λ _. Tested} m _ (Triple-weaken m h (λ _ w t. t) (λ w t. t.0.0)) k

    switch-Target :
        (f : ℤ) → Triple Tested (switch b true f >>= after_switch b) Target (InBounds b p c)
    unfolding switch
    switch-Target f =
        Triple-bind {R = λ _. Below b p c l} _ _
          (Triple-strengthen _
            (Triple-weaken _ (dispatch-Below b p c l true _ f) (λ _ w h. h) (λ w h. h.0))
            (λ w h. h.0))
          after_switch-Target

    ruleset tested_rules =
        (stable_rules, Tested-call, Triple-pure, Triple-if, Tested-Target, switch-Target)

    handle_message-Target : Triple Tested (handle_message b) Target (InBounds b p c)
    unfolding handle_message
    handle_message-Target = Tested-then _ (search tested_rules) λ _.
        Tested-then _ (search tested_rules) λ f. Tested-then _ (search tested_rules) λ ignoring.
          Tested-then _ (search tested_rules)
            λ notify. Tested-then _ (search tested_rules) λ _. search tested_rules depth 12

    -- Before a round: at most `l` are left.
    abbrev pub AtMost : World b.State → Type 0
    AtMost w = InBounds b p c w × (rounds_left w ≤ l)

    wire_message-Target : Triple AtMost (wire_message b) Target (InBounds b p c)
    unfolding wire_message
    wire_message-Target =
        Triple-bind {R = λ _. Below b p c l} _ _
          (Triple-ask_any b socket_backend
            (λ w h. ground (arith, p.bounded socket_backend w, p.consumes w)) (λ w h. h.0))
          λ _.
            Triple-bind {R = λ _. Below b p c l} _ _ (Triple-modify _ (λ w h. h))
              (λ _. test_buffer (handle_message b) handle_message-Target)

    abbrev auth : Action b.State (Unit {0}) → Action b.State (Option Label)
    auth m = m >> pure (some resume_on_error)

    -- The authentication exchange ends the loop.
    auth_then :
        (m : Action b.State (Unit {0}))
        → Stable (InBounds b p c) m
        → Triple AtMost (auth m) Target (InBounds b p c)
    auth_then m h =
        Triple-bind {R = λ _. InBounds b p c} m _ (Triple-strengthen m h (λ w q. q.0))
          (λ _. Triple-pure _ (λ w q. q))

    wire_round-Target : (first : ℤ) → Triple AtMost (wire_round b first) Target (InBounds b p c)
    unfolding wire_round
    wire_round-Target first =
        Triple-if (is_zero first) (auth (startup_auth b))
          (if is_pos first 112 then auth (startup_pass b true) else wire_message b)
          (λ _. auth_then (startup_auth b) (startup_auth-InBounds b p c))
          (λ _.
            Triple-if (is_pos first 112) (auth (startup_pass b true)) (wire_message b)
              (λ _. auth_then (startup_pass b true) (startup_pass-InBounds b p c true))
              (λ _. wire_message-Target))

    in_wire_mode :
        (wire : Bool) (m n : Action b.State (Option Label))
        → Triple AtMost m Target (InBounds b p c)
        → Triple (λ w. AtMost w × (wire ≡ true)) (if wire then m else n) Target (InBounds b p c)
    in_wire_mode true m n h = Triple-strengthen m h (λ w q. q.0)
    in_wire_mode false m n h =
        Triple-strengthen n (record { at = λ w (q : ⊥). absurd q }) (λ w q. cc)

    before_round :
        {A : Type 0} {f : A → Action b.State (Option Label)} (m : Action b.State A)
        → Stable AtMost m
        → ((a : A) → Triple AtMost (f a) Target (InBounds b p c))
        → Triple AtMost (m >>= f) Target (InBounds b p c)
    before_round m h k =
        Triple-bind {R = λ _. AtMost} m _ (Triple-weaken m h (λ _ w t. t) (λ w t. t.0)) k

    -- In wire mode, a round that goes on has fewer rounds left.
    pub round-Target : Triple AtMost (round b) Target (InBounds b p c)
    unfolding round
    round-Target = before_round _ (search stable_rules) λ repl.
        before_round _ (search stable_rules) λ _. before_round _ (search stable_rules) λ _.
          Triple-bind {R = λ wire w. AtMost w × (wire ≡ true)} _ _
            (Triple-gets _ (λ w h. (h, h.0.1)))
            λ wire.
              Triple-bind {R = λ _ w. AtMost w × (wire ≡ true)} _ _ (Triple-gets _ (λ w h. h))
                λ first.
                  in_wire_mode wire (wire_round b first) (text_round b) (wire_round-Target first)
