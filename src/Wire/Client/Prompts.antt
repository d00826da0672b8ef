-- ===== src/Wire/Client/Prompts.antt =====
-- A text that the host sends with the prompt on, as it does for a string.
use pglite_build.Prelude.{
  ap, ◌+◌, ◌≤◌, ◌≡◌, ◌∙◌, refl, ◌⊎◌, inl, inr, ℕ, suc, true, false, ◌&&◌, Bytes, [], ◌∷◌, ◌++◌, ℤ,
  pos, is_eof, ◌==◌, length, take, drop, arith,
}
use pglite_build.Wire.World.{Backend, World, exited, dest_debug}
use pglite_build.Wire.Action.{◌>>=◌, gets, modify, modify_shared, pure}
use pglite_build.Wire.Session.{interactive_write}
use pglite_build.Wire.Loop.{interactive_one, run, follow, locals}
use pglite_build.Wire.Loop.Blocks.{incoming, looping, block, round, text_round, handle_message}
use pglite_build.Wire.Loop.Opens.{IsCalm, Front, At, IsCopied}
use pglite_build.Wire.Loop.Safe.{run-Begins}
use pglite_build.Wire.Client.{put_request, put_bytes}

-- The state in which the text is handled as one simple query.
abbrev pub as_query : {S : Type 0} → Bytes → World S → World S
as_query message w = record w {
  pipelining = false;
  doing_command_read = true;
  firstchar = pos b'Q';
  shared = record (w.shared) {
    where_to_send_output = dest_debug;
    input_message = message ++ 0 ∷ [];
  };
}

not_eof :
    (c : ℤ) (message : Bytes) → 2 ≤ length message → (is_eof c && (length message == 0)) ≡ false
not_eof c message h = ground arith

module _ (b : Backend) where
  looping-as_query :
      (w : World b.State)
      → 2 ≤ length w.shared.input_message
      → w.pipelining ≡ true
      → w.is_repl ≡ true
      → w.is_wire ≡ false
      → block b looping w ≡ handle_message b (as_query w.shared.input_message w)
  unfolding block round text_round ◌>>=◌ gets modify modify_shared pure
  looping-as_query w long more on off =
      rw (more, on, off, not_eof w.firstchar w.shared.input_message long) refl

take-put_bytes : (encoded io : Bytes) → take (length encoded) (put_bytes encoded io) ≡ encoded
take-put_bytes [] io = refl
take-put_bytes (x ∷ encoded) io =
    ap (λ xs. x ∷ xs) (take-append encoded (drop (length (x ∷ encoded)) io))
  where
    take-append : (xs ys : Bytes) → take (length xs) (xs ++ ys) ≡ xs
    take-append [] ys = refl
    take-append (y ∷ xs) ys = ap (λ zs. y ∷ zs) (take-append xs ys)

-- The text is in the CMA buffer, with the prompt on.
abbrev Prompted : {S : Type 0} → Bytes → Front S → Type 0
Prompted io v =
    (v.view_of.is_repl ≡ true) × (v.view_of.is_wire ≡ false) × (v.pipelining ≡ true) × (v.io ≡ io)

module _ (b : Backend) (encoded : Bytes) where
  abbrev Sized : Bytes → Front b.State → Type 0
  Sized io v = Prompted io v × (v.view_of.cma_rsize ≡ pos (length encoded))

  -- From `sigsetjmp` to the message.
  incoming-as_query :
      (fuel : ℕ) (io : Bytes) (w : World b.State)
      → 2 ≤ length encoded
      → take (length encoded) io ≡ encoded
      → At (Sized io) w
      → IsCopied (length encoded) w
      → run b (suc (suc fuel)) incoming w ≡ (
          let (r, w') =
            handle_message b
              (as_query encoded (record w { armed = true; pg_exception_stack = true })) in
          follow (run b fuel) r w')
  unfolding run block follow ◌>>=◌ modify pure
  incoming-as_query fuel io w long is h copied =
      let ready = record w { armed = true; pg_exception_stack = true } in
      let message : w.shared.input_message ≡ encoded =
        copied h.0.0 ∙ ap (take (length encoded)) h.0.3 ∙ is in
      let size : 2 ≤ length w.shared.input_message = rw message long in
      ap (λ x. let (r, w') = x in follow (run b fuel) r w')
        (looping-as_query b ready size h.0.2 h.0.0 h.0.1)
      ∙ ap (λ m. let (r, w') = handle_message b (as_query m ready) in follow (run b fuel) r w')
          message

  -- With the prompt on and the wire off, a text of at least two bytes that is put into the CMA buffer
  -- becomes one simple query, whole and ended by a NUL: the call goes on from that message with the
  -- loop switched off, `sigsetjmp` done and the reply file open, or the process ends. The conditions
  -- are that no reply is pending and that the backend raises no error before `sigsetjmp`.
  pub interactive_one-as_query :
      (fuel : ℕ) (w : World b.State)
      → IsCalm b
      → 2 ≤ length encoded
      → w.is_repl ≡ true
      → w.is_wire ≡ false
      → w.shared.socket_data ≡ 0
      → ((interactive_one b (3 + fuel) (put_request encoded w)).0 ≡ exited)
        ⊎ ((w' : World b.State) × (interactive_one b (3 + fuel) (put_request encoded w) ≡ (
              let (r, w'') = handle_message b (as_query encoded w') in follow (run b fuel) r w''))
            × (w'.armed ≡ true)
            × (w'.socket_file ≡ true))
  unfolding interactive_one put_request interactive_write
  interactive_one-as_query fuel w calm long on off idle =
      let io = put_bytes encoded w.io in
      let sent = put_request encoded w in
      elim (run-Begins b calm (Sized io) (λ c w h. h) (λ t v h. h) (λ t v h. h) (length encoded)
        long (λ v h. h.1) (λ v h. h) (3 + fuel) (locals b sent) ((on, off, refl, refl), refl)
        idle) [
          | inl (spent, lacking) ↦ absurd (omega arith)
          | inr (inl ended) ↦ inl ended
          | inr (inr (f, w', spent, same, (h, opened), copied)) ↦
              let is : f ≡ suc (suc fuel) = omega arith in
              inr (
                record w' { armed = true; pg_exception_stack = true },
                same
                    ∙ ap (λ n. run b n incoming w') is
                    ∙ incoming-as_query fuel io w' long (take-put_bytes encoded w.io) h copied,
                refl,
                opened,
              )
        ]
