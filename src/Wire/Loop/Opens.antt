-- ===== src/Wire/Loop/Opens.antt =====
-- `interactive_one` up to its `sigsetjmp`, with a request in the CMA buffer.
use pglite_build.Prelude.{
  ◌≡◌, ◌≢◌, ◌≤◌, ◌∙◌, refl, ap, take, to_ℕ, Bytes, ℕ, Bool, true, false, not, Option, some, ℤ, pos,
  is_neg, is_zero, lt_ℤ, ltb, arith, if◌then◌else◌,
}
use pglite_build.Wire.World.{
  Backend, World, Call, raises, pq_init, memory_context_switch, invalidate_catalog_snapshot,
  is_aborted_block, is_transaction_block, process_notify_interrupt,
}
use pglite_build.Wire.Action.{
  Action, ◌>>=◌, ◌>>◌, ask, call, gets, modify, modify_shared, pure, when,
}
use pglite_build.Wire.Action.Triple.{
  Triple, Triple-bind, Triple-gets, Triple-if, Triple-modify, Triple-pure, Triple-strengthen,
  stable_rules,
}
use pglite_build.Wire.Action.Triple.Calls.{Calm-ask, Calm-call, after}
use pglite_build.Wire.Session.{io_init}
use pglite_build.Wire.Loop.Blocks.{
  Label, incoming, flushing, at_entry, read_input, memory_input, open_reply_file,
  idle_notifications, cma_input,
}
use pglite_build.Wire.Loop.Frame.{View, view}

-- The calls of the backend that are made before `sigsetjmp`.
abbrev pub is_opening : Call → Bool
is_opening pq_init = true
is_opening memory_context_switch = true
is_opening invalidate_catalog_snapshot = true
is_opening is_aborted_block = true
is_opening is_transaction_block = true
is_opening process_notify_interrupt = true
is_opening _ = false

-- None of them raises an error.
abbrev pub IsCalm : Backend → Type 0
IsCalm b = (c : Call) (w : World b.State) → is_opening c ≡ true → (b.answer c w).0 ≢ raises

module _ {S A B : Type 0} {P : World S → Type 0} {R : B → World S → Type 0} where
  next :
      (m : Action S A) (f : A → Action S B)
      → Triple P m (λ _. P) (λ _. ⊥)
      → ((a : A) → Triple P (f a) R (λ _. ⊥))
      → Triple P (m >>= f) R (λ _. ⊥)
  next m f hm hf = Triple-bind {R = λ _. P} m f hm hf

-- What these parts keep: the view, the input and the flag of the loop.
pub record Front (S : Type 0) : Type 0 where
  pub view_of : View S
  pub io : Bytes
  pub pipelining : Bool

abbrev pub front : {S : Type 0} → World S → Front S
front w = record { view_of = view w; io = w.io; pipelining = w.pipelining }

abbrev pub At : {S : Type 0} → (Front S → Type 0) → World S → Type 0
At Q w = Q (front w)

-- The reply file is open.
abbrev pub WithFile : {S : Type 0} → (Front S → Type 0) → Front S → Type 0
WithFile Q v = Q v × (v.view_of.socket_file ≡ true)

-- With the prompt on, the message buffer holds the request.
abbrev pub IsCopied : {S : Type 0} → ℕ → World S → Type 0
IsCopied n w = w.is_repl ≡ true → w.shared.input_message ≡ take n w.io

off_on : (repl : Bool) → repl ≡ true → repl ≡ false → ⊥
off_on repl on off = cc

zero_ne : (len : ℤ) (n : ℕ) → len ≡ pos n → 2 ≤ n → not (is_zero len) ≡ false → ⊥
zero_ne len n e long h = ground arith

neg_ne : (len : ℤ) (n : ℕ) → len ≡ pos n → is_neg len ≡ true → ⊥
neg_ne len n e h = ground arith

pending_ne : (pending : ℕ) → pending ≡ 0 → ltb 0 pending ≡ true → ⊥
pending_ne pending e h = ground arith

long_ne : (len : ℤ) (n : ℕ) → len ≡ pos n → 2 ≤ n → lt_ℤ len 2 ≡ true → ⊥
long_ne len n e long h = ground arith

module _ (b : Backend) (calm : IsCalm b) (Q : Front b.State → Type 0)
    (calls : (c : Call) (w : World b.State) → At Q w → At Q (after b c w)) where
  abbrev Quietly : {A : Type 0} → Action b.State A → Type 0
  Quietly m = Triple (At Q) m (λ _. At Q) (λ _. ⊥)

  calm_ask : (c : Call) → is_opening c ≡ true → Quietly (ask b c)
  calm_ask c h = Calm-ask b c (calls c) (λ w. calm c w h)

  calm_call : (c : Call) → is_opening c ≡ true → Quietly (call b c)
  calm_call c h = Calm-call b c (calls c) (λ w. calm c w h)

  ruleset quiet_rules = (stable_rules, calm_ask, calm_call)

  idle-Quietly : Quietly (idle_notifications b)
  unfolding idle_notifications
  idle-Quietly = search quiet_rules depth 40

module _ (b : Backend) (calm : IsCalm b) (Q : Front b.State → Type 0)
    (calls : (c : Call) (w : World b.State) → At Q w → At Q (after b c w))
    (files : (on : Bool) (v : Front b.State)
      → Q v
      → Q (record v { view_of = record (v.view_of) { sockfiles = on } }))
    (opened : (on : Bool) (v : Front b.State)
      → Q v
      → Q (record v { view_of = record (v.view_of) { socket_file = on } })) where
  -- A new client starts with nothing to send.
  abbrev IsIdle : World b.State → Type 0
  IsIdle w = At Q w × (w.shared.socket_data ≡ 0)

  abbrev Drained : Type 0
  Drained =
      (v : Front b.State) → Q v → Q (record v { view_of = record (v.view_of) { socket_data = 0 } })

  emptied :
      Drained
      → Triple (At Q) (modify_shared (λ s. record s { socket_data = 0 })) (λ _. IsIdle) (λ _. ⊥)
  unfolding modify_shared
  emptied drained = Triple-modify _ (λ w h. (drained (front w) h, refl))

  closed-Quietly :
      (auth : Bool)
      → Triple {S = b.State}
          (At Q)
          (modify λ w. record w { client_auth_in_progress = auth; socket_file = false })
          (λ _. At Q)
          (λ _. ⊥)
  closed-Quietly auth = Triple-modify _ (λ w h. opened false (front w) h)

  init-Quietly :
      Drained → (in_auth : Bool) → Triple (At Q) (io_init b in_auth false) (λ _. IsIdle) (λ _. ⊥)
  unfolding io_init
  init-Quietly drained in_auth =
      search (emptied drained, next, closed-Quietly, stable_rules, calm_ask b calm Q calls) depth 40

  opened_calls : (c : Call) (w : World b.State) → At (WithFile Q) w → At (WithFile Q) (after b c w)
  opened_calls c w h = (calls c w h.0, h.1)

  abbrev IsOpen : World b.State → Type 0
  IsOpen = At (WithFile Q)

  reply_file-Quietly : Triple (At Q) (open_reply_file b) (λ _. IsOpen) (λ _. ⊥)
  unfolding open_reply_file modify_shared
  reply_file-Quietly =
      Triple-bind {R = λ is_open w. At Q w × (w.socket_file ≡ is_open)} _ _
        (Triple-gets _ (λ w h. (h, refl)))
        λ is_open.
          Triple-if (not is_open) _ _
            (λ shut.
              Triple-bind {R = λ _. IsOpen} _ _
                (Triple-modify _ (λ w h. (opened true (front w) h.0, refl)))
                (λ _. Triple-modify _ (λ w h. h)))
            (λ on. Triple-pure tt (λ w h. (h.0, h.1 ∙ ground (arith, on))))

  module _ (n : ℕ) (long : 2 ≤ n)
      (request : (v : Front b.State) → Q v → v.view_of.cma_rsize ≡ pos n) where
    abbrev ToLoop : Option Label → World b.State → Type 0
    ToLoop j w = (j ≡ some incoming) × IsOpen w × IsCopied n w

    -- The length of the request is known.
    abbrev Measured : World b.State → Type 0
    Measured w = IsOpen w × (w.packetlen ≡ pos n)

    abbrev Copied : World b.State → Type 0
    Copied w = Measured w × IsCopied n w

    memory_input-ToLoop : Triple Measured (memory_input b) ToLoop (λ _. ⊥)
    unfolding memory_input
    memory_input-ToLoop = next _ _ (search (stable_rules)) λ _.
        Triple-bind {R = λ repl w. Measured w × (w.is_repl ≡ repl)} _ _
          (Triple-gets _ (λ w h. (h, refl)))
          λ repl.
            Triple-bind {R = λ _. Copied} _ _
              (Triple-if repl _ _
                (λ on. Triple-modify _ (λ w h. (h.0, λ _. ap (λ len. take (to_ℕ len) w.io) h.0.1)))
                (λ off.
                  Triple-pure tt (λ w h. (h.0, λ on. absurd (off_on w.is_repl on (h.1 ∙ off))))))
              λ _.
                Triple-bind {R = λ len w. Copied w × (len ≡ pos n)} _ _
                  (Triple-gets _ (λ w h. (h, h.0.1)))
                  λ len.
                    Triple-if (lt_ℤ len 2) _ _
                      (λ short. record { at = λ w h. absurd (long_ne len n h.1 long short) })
                      (λ enough. Triple-pure _ (λ w h. (refl, h.0.0.0, h.0.1)))

    cma_input-Measured : Triple Measured (cma_input b) (λ _. Measured) (λ _. ⊥)
    unfolding cma_input modify_shared
    cma_input-Measured =
        Triple-bind {R = λ _. Measured} _ _
          (Triple-modify _ (λ w h. ((files false (front w) h.0.0, h.0.1), h.1)))
          (λ _. search (stable_rules) depth 20)

    pub read_input-ToLoop : Triple (At Q) (read_input b) ToLoop (λ _. ⊥)
    unfolding read_input
    read_input-ToLoop = Triple-bind {R = λ _. IsOpen} _ _ reply_file-Quietly λ _.
        next _ _ (search (calm_call b calm (WithFile Q) opened_calls)) λ _.
          next _ _ (search (stable_rules)) λ _.
            next _ _ (search (calm_call b calm (WithFile Q) opened_calls)) λ _.
              next _ _ (idle-Quietly b calm (WithFile Q) opened_calls) λ _.
                Triple-bind {R = λ _. Measured} _ _
                  (Triple-modify _ (λ w h. (h, request (front w) h.0)))
                  λ _.
                    Triple-bind {R = λ len w. Measured w × (len ≡ pos n)} _ _
                      (Triple-gets _ (λ w h. (h, h.1)))
                      λ len.
                        Triple-if (not (is_zero len)) _ _
                          (λ there.
                            Triple-strengthen {P = Measured} _
                              (next _ _ cma_input-Measured (λ _. memory_input-ToLoop)) (λ w h. h.0))
                          (λ none_there. record {
                            at = λ w h. absurd (zero_ne len n h.1 long none_there);
                          })

    -- From the test of `MyProcPort` on.
    connected-ToLoop :
        Drained
        → Triple IsIdle
            (gets (λ w. w.my_proc_port) >>= λ port. gets (λ w. w.is_wire) >>= λ wire.
              when (not port) (io_init b wire false)
              >> (gets (λ w. w.shared.socket_data) >>= λ pending.
                  if ltb 0 pending then pure (some flushing) else read_input b))
            ToLoop
            (λ _. ⊥)
    connected-ToLoop drained = next _ _ (search (stable_rules)) λ port.
        next _ _ (search (stable_rules)) λ wire.
          Triple-bind {R = λ _. IsIdle} _ _
            (Triple-if (not port) _ _
              (λ new. Triple-strengthen {P = At Q} _ (init-Quietly drained wire) (λ w h. h.0))
              (λ old. Triple-pure tt (λ w h. h)))
            λ _.
              Triple-bind {R = λ pending w. At Q w × (pending ≡ 0)} _ _ (Triple-gets _ (λ w h. h))
                λ pending.
                  Triple-if (ltb 0 pending) _ _
                    (λ more. record { at = λ w h. absurd (pending_ne pending h.1 more) })
                    (λ idle. Triple-strengthen {P = At Q} _ read_input-ToLoop (λ w h. h.0))

    pub at_entry-ToLoop : Drained → Triple IsIdle (at_entry b) ToLoop (λ _. ⊥)
    unfolding at_entry
    at_entry-ToLoop drained =
        Triple-bind {R = λ size w. IsIdle w × (size ≡ pos n)} _ _
          (Triple-gets _ (λ w h. (h, request (front w) h.0)))
          λ size.
            Triple-if (is_neg size) _ _
              (λ negative. record { at = λ w h. absurd (neg_ne size n h.1 negative) })
              (λ sized. Triple-strengthen {P = IsIdle} _ (connected-ToLoop drained) (λ w h. h.0))
