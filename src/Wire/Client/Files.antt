-- ===== src/Wire/Client/Files.antt =====
-- The first block of `interactive_one` where the request is in the file PGS_IN.
use pglite_build.Prelude.{
  ◌≡◌, ◌∙◌, refl, ℕ, suc, Bool, true, false, not, Option, some, ◌∷◌, Bytes, ℤ, pos, is_neg, is_zero,
  ltb, ◌&&◌, length, arith, if◌then◌else◌,
}
use pglite_build.Wire.World.{Backend, World, Call, pq_recvbuf_fill, dest_remote}
use pglite_build.Wire.Action.{Action, ◌>>=◌, ◌>>◌, ask, call, modify_shared, pure}
use pglite_build.Wire.Action.Triple.{
  Triple, Triple-bind, Triple-gets, Triple-if, Triple-modify, Triple-pure, Triple-strengthen,
  Triple-weaken, stable_rules,
}
use pglite_build.Wire.Action.Triple.Calls.{Triple-ask_any, Triple-call, after, after_text}
use pglite_build.Wire.Session.{io_init, startup_auth, startup_pass}
use pglite_build.Wire.Loop.Blocks.{
  Label, incoming, flushing, at_entry, read_input, open_reply_file, idle_notifications, other_input,
  input_from, file_input,
}
use pglite_build.Wire.Loop.Frame.{View}
use pglite_build.Wire.Loop.Kept.{On, Kept, Kept-auth, Kept-pass}
use pglite_build.Wire.Loop.Stages.{Arrives}

-- The backend never leaves the files for the CMA buffer.
pub record KeepsFiles (b : Backend) : Type 0 where
  pub calls :
      (c : Call) (w : World b.State)
      → w.shared.sockfiles ≡ true
      → (after b c w).shared.sockfiles ≡ true
  pub texts :
      (w : World b.State) → w.shared.sockfiles ≡ true → (after_text b w).shared.sockfiles ≡ true

-- The reply goes to a file that is open.
abbrev pub Filed : {S : Type 0} → View S → Type 0
Filed v = (v.is_repl ≡ false) × (v.sockfiles ≡ true) × (v.socket_file ≡ true)

-- The file PGS_OUT holds a reply.
abbrev pub Answered : {S : Type 0} → World S → Type 0
Answered w = (content : Bytes) × (w.pgs_out ≡ some content)

abbrev pub Unarmed : {S : Type 0} → World S → Type 0
Unarmed w = w.armed ≡ false

module _ {S A B : Type 0} {P E : World S → Type 0} {R : B → World S → Type 0} where
  next :
      (m : Action S A) (f : A → Action S B)
      → Triple P m (λ _. P) E
      → ((a : A) → Triple P (f a) R E)
      → Triple P (m >>= f) R E
  next m f hm hf = Triple-bind {R = λ _. P} m f hm hf

either :
    {S A : Type 0} {P E : World S → Type 0} {R : A → World S → Type 0} (t : Bool) (m n : Action S A)
    → Triple P m R E
    → Triple P n R E
    → Triple P (if t then m else n) R E
either t m n hm hn = Triple-if t m n (λ _. hm) (λ _. hn)

true_ne : (t : Bool) → t ≡ true → t ≡ false → ⊥
true_ne t h k = cc

sized_ne : (len : ℤ) → len ≡ pos 0 → not (is_zero len) ≡ true → ⊥
sized_ne len e h = ground (arith, e)

neg_ne : (len : ℤ) → len ≡ pos 0 → is_neg len ≡ true → ⊥
neg_ne len e h = ground (arith, e)

pending_ne : (pending : ℕ) → pending ≡ 0 → ltb 0 pending ≡ true → ⊥
pending_ne pending e h = ground arith

prompt_off : (repl wire : Bool) → repl ≡ false → (repl && not wire) ≡ false
prompt_off repl wire h = ground (arith, h)

module _ (b : Backend) (keeps : KeepsFiles b) where
  pub Filed-Kept : Kept b Filed
  Filed-Kept = record {
    calls = λ c w h. (h.0, keeps.calls c w h.1, h.2);
    texts = λ w h. (h.0, keeps.texts w h.1, h.2);
    off = λ v h. (refl, h.1, h.2);
  }

  -- And this call has no `sigsetjmp` yet.
  abbrev Early : View b.State → Type 0
  Early v = Filed v × (v.armed ≡ false)

  Early-Kept : Kept b Early
  Early-Kept = record {
    calls = λ c w h. (Filed-Kept.calls c w h.0, h.1);
    texts = λ w h. (Filed-Kept.texts w h.0, h.1);
    off = λ v h. (Filed-Kept.off v h.0, h.1);
  }

  abbrev pub Begun : Option Label → World b.State → Type 0
  Begun = Arrives (On Filed) Answered

  auth : Triple (On Early) (startup_auth b) (λ _. On Early) Unarmed
  auth = Triple-weaken _ (Kept-auth b Early Early-Kept) (λ _ w h. h) (λ w h. h.1)

  pass : Triple (On Early) (startup_pass b true) (λ _. On Early) Unarmed
  pass = Triple-weaken _ (Kept-pass b Early Early-Kept true) (λ _ w h. h) (λ w h. h.1)

  to_flush : Triple (On Early) (pure (some flushing)) Begun Unarmed
  to_flush = Triple-pure _ (λ w h. h.0)

  to_incoming : Triple (On Early) (pure (some incoming)) Begun Unarmed
  to_incoming = Triple-pure _ (λ w h. h.0)

  module _ (c : ℕ) (cs : Bytes) where
    -- The request is there.
    abbrev Waits : World b.State → Type 0
    Waits w =
        (w.cma_rsize ≡ pos 0) × (w.is_repl ≡ false) × (w.armed ≡ false) × (w.pgs_in ≡ some (c ∷ cs))

    -- And nothing is left of an earlier reply.
    abbrev pub Requests : World b.State → Type 0
    Requests w = Waits w × (w.shared.socket_data ≡ 0)

    -- The reply file is open.
    abbrev Opened : World b.State → Type 0
    Opened w = Waits w × (w.socket_file ≡ true)

    ask-Waits : (k : Call) → Triple Waits (ask b k) (λ _. Waits) Unarmed
    ask-Waits k = Triple-ask_any b k (λ w h. h) (λ w h. h.2)

    ask-Opened : (k : Call) → Triple Opened (ask b k) (λ _. Opened) Unarmed
    ask-Opened k = Triple-ask_any b k (λ w h. h) (λ w h. h.0.2)

    call-Opened : (k : Call) → Triple Opened (call b k) (λ _. Opened) Unarmed
    call-Opened k = Triple-call b k (ask-Opened k)

    file_input-Begun : Triple Opened (file_input b (c ∷ cs)) Begun Unarmed
    unfolding file_input modify_shared
    file_input-Begun = next _ _ (search (stable_rules)) λ _. next _ _ (search (stable_rules)) λ _.
        Triple-bind {R = λ sql w. Opened w × (sql ≡ false)} _ _
          (Triple-gets _ (λ w h. (h, prompt_off w.is_repl w.is_wire h.0.1)))
          λ sql.
            Triple-bind {R = λ _. On Early} _ _
              (Triple-if sql _ _ (λ on. record { at = λ w h. absurd (true_ne sql on h.1) })
                (λ off. Triple-strengthen {P = Opened} _ to_files (λ w h. h.0)))
              λ _. search (next, stable_rules, auth, pass, to_flush, to_incoming, either) depth 60
      where
        to_files :
            Triple Opened
              (modify_shared (λ s. record s { where_to_send_output = dest_remote })
                >> (call b (pq_recvbuf_fill (suc (length cs)))
                    >> modify_shared (λ s. record s { sockfiles = true })))
              (λ _. On Early)
              Unarmed
        to_files =
            next _ _ (search (stable_rules)) λ _.
              next _ _ (call-Opened _) λ _. Triple-modify _ (λ w h. ((h.0.1, refl, h.1), h.0.2))

    idle-Opened : Triple Opened (idle_notifications b) (λ _. Opened) Unarmed
    unfolding idle_notifications
    idle-Opened = search (stable_rules, ask-Opened, call-Opened) depth 40

    reply_file-Opened : Triple Waits (open_reply_file b) (λ _. Opened) Unarmed
    unfolding open_reply_file modify_shared
    reply_file-Opened =
        Triple-bind {R = λ is_open w. Waits w × (w.socket_file ≡ is_open)} _ _
          (Triple-gets _ (λ w h. (h, refl)))
          λ is_open.
            Triple-if (not is_open) _ _
              (λ shut.
                Triple-bind {R = λ _. Opened} _ _ (Triple-modify _ (λ w h. (h.0, refl)))
                  (λ _. Triple-modify _ (λ w h. h)))
              (λ on. Triple-pure tt (λ w h. (h.0, h.1 ∙ ground (arith, on))))

    input_from-Begun :
        (file : Option Bytes)
        → file ≡ some (c ∷ cs)
        → Triple Opened (input_from b file) Begun Unarmed
    unfolding input_from
    input_from-Begun file e =
        rw e (Triple-bind {R = λ _. Opened} _ _ (search (stable_rules)) (λ _. file_input-Begun))

    other_input-Begun : Triple Opened (other_input b) Begun Unarmed
    unfolding other_input
    other_input-Begun =
        Triple-bind {R = λ file w. Opened w × (file ≡ some (c ∷ cs))} _ _
          (Triple-gets _ (λ w h. (h, h.0.3)))
          (λ file. record { at = λ w h. (input_from-Begun file h.1).at w h.0 })

    -- No packet is in the CMA buffer.
    abbrev Unsized : ℤ → World b.State → Type 0
    Unsized len w = Opened w × (len ≡ pos 0)

    read_input-Begun : Triple Waits (read_input b) Begun Unarmed
    unfolding read_input
    read_input-Begun = Triple-bind {R = λ _. Opened} _ _ reply_file-Opened λ _.
        next _ _ (call-Opened _) λ _. next _ _ (search (stable_rules)) λ _.
          next _ _ (call-Opened _) λ _. next _ _ idle-Opened λ _.
            Triple-bind {R = λ _ w. Unsized w.packetlen w} _ _ (Triple-modify _ (λ w h. (h, h.0.0)))
              λ _. Triple-bind {R = λ len w. Unsized len w} _ _ (Triple-gets _ (λ w h. h)) λ len.
                Triple-if (not (is_zero len)) _ _
                  (λ some_there. record { at = λ w h. absurd (sized_ne len h.1 some_there) })
                  (λ none_there. Triple-strengthen {P = Opened} _ other_input-Begun (λ w h. h.0))

    init-Requests :
        (in_auth : Bool) → Triple Waits (io_init b in_auth false) (λ _. Requests) Unarmed
    unfolding io_init modify_shared
    init-Requests in_auth = search (emptied, next, stable_rules, ask-Waits) depth 40
      where
        emptied :
            Triple Waits (modify_shared (λ s. record s { socket_data = 0 })) (λ _. Requests) Unarmed
        emptied = Triple-modify _ (λ w h. (h, refl))

    pub at_entry-Begun : Triple Requests (at_entry b) Begun Unarmed
    unfolding at_entry
    at_entry-Begun =
        Triple-bind {R = λ size w. Requests w × (size ≡ pos 0)} _ _
          (Triple-gets _ (λ w h. (h, h.0.0)))
          λ size.
            Triple-if (is_neg size) _ _
              (λ negative. record { at = λ w h. absurd (neg_ne size h.1 negative) })
              (λ sized.
                Triple-strengthen {P = Requests} _
                  (next _ _ (search (stable_rules)) λ port. next _ _ (search (stable_rules)) λ wire.
                    Triple-bind {R = λ _. Requests} _ _
                      (Triple-if (not port) _ _
                        (λ new. Triple-strengthen {P = Waits} _ (init-Requests wire) (λ w h. h.0))
                        (λ old. Triple-pure tt (λ w h. h)))
                      λ _.
                        Triple-bind {R = λ pending w. Waits w × (pending ≡ 0)} _ _
                          (Triple-gets _ (λ w h. h))
                          λ pending.
                            Triple-if (ltb 0 pending) _ _
                              (λ more. record { at = λ w h. absurd (pending_ne pending h.1 more) })
                              (λ idle.
                                Triple-strengthen {P = Waits} _ read_input-Begun (λ w h. h.0)))
                  (λ w h. h.0))
