-- ===== src/Wire/Client/Delivers.antt =====
-- Where the host finds the reply to a request that it put into the CMA buffer.
use pglite_build.Prelude.{
  ◌+◌, ◌≤◌, ◌≡◌, ◌≢◌, ◌∙◌, refl, ap, ◌⊎◌, inl, inr, ℕ, zero, suc, ℤ, Bool, true, false, some, pos,
  minus_one, add_ℕ, ltb, Bytes, length, if◌then◌else◌, arith,
}
use pglite_build.Wire.World.{Backend, World, Call, ok}
use pglite_build.Wire.Action.{◌>>=◌, gets, modify, modify_shared, pure}
use pglite_build.Wire.Action.Rules.{bind-ok}
use pglite_build.Wire.Action.Triple.{
  Triple, Triple-bind, Triple-gets, Triple-if, Triple-modify, stable_rules,
}
use pglite_build.Wire.Action.Triple.Calls.{after, after_text}
use pglite_build.Wire.Session.{interactive_read, get_channel}
use pglite_build.Wire.Loop.{run, interactive_one, locals}
use pglite_build.Wire.Loop.Blocks.{
  Label, entry, incoming, block, at_entry, read_input, publish, close_reply_file, free_buffers,
}
use pglite_build.Wire.Loop.Frame.{View}
use pglite_build.Wire.Loop.Kept.{On, Kept}
use pglite_build.Wire.Loop.Stages.{run-After}
use pglite_build.Wire.Loop.Staging.{Staged, later-Leading}
use pglite_build.Wire.Loop.Frees.{block-ne-entry}
use pglite_build.Wire.Loop.Opens.{IsCalm, Front, read_input-ToLoop}
use pglite_build.Wire.Loop.Safe.{follow-Begins}
use pglite_build.Wire.Loop.Sound.{Faultless-block}
use pglite_build.Wire.Client.{Window, reply_window, put_request, send_to_pglite}

-- `written` counts the bytes that the backend has written to its client, and SOCKET_DATA grows by what
-- a call writes.
pub record Counts (b : Backend) (written : b.State → ℕ) : Type 0 where
  pub calls :
      (c : Call) (w : World b.State)
      → (after b c w).shared.socket_data + written w.rest
        ≡ w.shared.socket_data + written (after b c w).rest
  pub texts :
      (w : World b.State)
      → (after_text b w).shared.socket_data + written w.rest
        ≡ w.shared.socket_data + written (after_text b w).rest

module _ (b : Backend) (written : b.State → ℕ) (counts : Counts b written) (n : ℕ) (c : ℤ)
    (before : ℕ) where
  -- A request of `n` bytes is there, and of its reply what was written since `before`.
  abbrev Pending : View b.State → Type 0
  Pending v =
      (v.cma_rsize ≡ pos n)
      × (v.cma_wsize ≡ 0)
      × (v.channel ≡ c)
      × (v.is_repl ≡ false)
      × (v.socket_data + before ≡ written v.rest)

  -- The reply went to the file, or it is in memory and the channel leads to it.
  abbrev Delivered : World b.State → Type 0
  Delivered w =
      ((w.shared.sockfiles ≡ true) × (w.cma_wsize ≡ 0) × (w.channel ≡ minus_one))
      ⊎ ((w.cma_wsize + before ≡ written w.rest)
          × (w.channel ≡ (if ltb 0 w.cma_wsize then pos (n + 2) else c)))

  Pending-Kept : Kept b Pending
  Pending-Kept = record {
    calls = λ k w h. (h.0, h.1, h.2, h.3, omega (arith, counts.calls k w, h.4));
    texts = λ w h. (h.0, h.1, h.2, h.3, omega (arith, counts.texts w, h.4));
    off = λ v h. (h.0, h.1, h.2, refl, h.4);
  }

  close-Delivered : Triple Delivered (close_reply_file b) (λ _. Delivered) (On Pending)
  unfolding close_reply_file
  close-Delivered = record { at = λ w h. ground (arith, h) }

  -- The bytes that are pending, and whether files are used.
  abbrev Known : ℕ → Bool → World b.State → Type 0
  Known pending files w =
      On Pending w × (w.shared.socket_data ≡ pending) × (w.shared.sockfiles ≡ files)

  announce-Delivered :
      (pending : ℕ) (files : Bool)
      → ltb 0 pending ≡ true
      → Triple
          (Known pending files)
          (if files
            then modify (λ w. record w { channel = minus_one })
            else modify (λ w. record w { cma_wsize = pending; channel = add_ℕ w.cma_rsize 2 }))
          (λ _. Delivered)
          (On Pending)
  announce-Delivered pending true more = Triple-modify _ (λ w h. inl (h.2, h.0.1, refl))
  announce-Delivered pending false more =
      Triple-modify _
        λ w h. inr (omega (arith, h.0.4, h.1), rw more (ap (λ size. add_ℕ size 2) h.0.0))

  publish-Delivered : Triple (On Pending) (publish b) (λ _. Delivered) (On Pending)
  unfolding publish modify_shared
  publish-Delivered =
      Triple-bind {R = λ pending w. On Pending w × (w.shared.socket_data ≡ pending)} _ _
        (Triple-gets _ (λ w h. (h, refl)))
        λ pending.
          Triple-bind {R = Known pending} _ _ (Triple-gets _ (λ w h. (h.0, h.1, refl))) λ files.
            Triple-bind {R = λ _. Known pending files} _ _ (search (stable_rules)) λ opened.
              Triple-if (ltb 0 pending) _ _
                (λ more.
                  Triple-bind {R = λ _. Delivered} _ _ (announce-Delivered pending files more)
                    (λ _. search (stable_rules) depth 30))
                (λ no_more.
                  Triple-bind {R = λ _. Delivered} _ _
                    (Triple-modify _ (λ w h. inr (none_left pending w h no_more, h.0.2)))
                    (λ _. search (close-Delivered, stable_rules) depth 30))
    where
      none_left :
          {files : Bool} (pending : ℕ) (w : World b.State)
          → Known pending files w
          → ltb 0 pending ≡ false
          → 0 + before ≡ written w.rest
      none_left pending w h no_more =
          let none : pending ≡ 0 = ground arith in omega (arith, h.0.4, h.1)

  on_off : (repl : Bool) → repl ≡ true → repl ≡ false → ⊥
  on_off repl on off = cc

  Pending-Staged : Staged b Pending Delivered
  unfolding free_buffers
  Pending-Staged = record {
    kept = Pending-Kept;
    armed = λ v h. h;
    prompted = λ w h on. absurd (on_off w.is_repl on h.3);
    publishes = publish-Delivered;
    frees = Triple-modify _ (λ w h. h);
  }

  -- From `sigsetjmp` on.
  incoming-Delivered :
      (fuel : ℕ) (w : World b.State)
      → On Pending w
      → (run b fuel incoming w).0 ≡ ok tt
      → Delivered (run b fuel incoming w).1
  incoming-Delivered fuel w h e =
      run-After b (On Pending) Delivered (λ l. l ≢ entry) leads_on (λ e. cc)
        (later-Leading b Pending Delivered Pending-Staged) fuel incoming w (λ e. cc) h e
    where
      leads_on : (l k : Label) (w : World b.State) → (block b l w).0 ≡ ok (some k) → k ≡ entry → ⊥
      leads_on l k w to at_start = block-ne-entry b l w (to ∙ ap (λ j. ok (some j)) at_start)

  -- A client that is connected and has nothing to read.
  at_entry-connected :
      (w : World b.State)
      → w.my_proc_port ≡ true
      → w.cma_rsize ≡ pos n
      → w.shared.socket_data ≡ 0
      → at_entry b w ≡ read_input b w
  unfolding at_entry ◌>>=◌ gets pure
  at_entry-connected w port size idle = rw (size, port, idle) refl

  one-Delivered :
      (fuel : ℕ) (w : World b.State)
      → IsCalm b
      → 2 ≤ n
      → On Pending w
      → w.my_proc_port ≡ true
      → w.shared.socket_data ≡ 0
      → (interactive_one b fuel w).0 ≡ ok tt
      → Delivered (interactive_one b fuel w).1
  unfolding interactive_one run block
  one-Delivered zero w calm long h port idle e = cc
  one-Delivered (suc fuel) w calm long h port idle e =
      let Q : Front b.State → Type 0 = λ v. Pending v.view_of in
      let calls = Pending-Kept.calls in
      let begun =
        follow-Begins b calm Q calls (λ on v h. h) (λ on v h. h) n long (λ v h. h.0) fuel
          (at_entry b (locals b w))
          (rw (at_entry-connected (locals b w) port h.0 idle) (
            (read_input-ToLoop b calm Q calls (λ on v h. h) (λ on v h. h) n long (λ v h. h.0)).at
              (locals b w) h))
          ((Faultless-block b entry (λ e. cc)).at (locals b w)) in
      elim begun [
        | inl (spent, lacking) ↦ absurd (omega (arith, spent))
        | inr (inl ended) ↦ cc
        | inr (inr (f, w', spent, same, (h', opened), copied)) ↦
            rw same (incoming-Delivered f w' h' (rw (← same) e))
      ]

-- With `n` bytes of request, the channel `c` and what was written before: the host reads from the
-- byte after the request and its two bytes of distance, as many bytes as were written, and the
-- channel leads there if there is any; or the reply went to the file, and the window is empty.
abbrev pub IsDelivered : {S : Type 0} → (S → ℕ) → ℕ → ℤ → S → Window → World S → Type 0
IsDelivered written n c before window w =
    (window.msg_start ≡ n + 2)
    × (((w.shared.sockfiles ≡ true)
          × (window.msg_end ≡ window.msg_start)
          × (get_channel w ≡ minus_one))
        ⊎ ((window.msg_end + written before ≡ window.msg_start + written w.rest)
            × (get_channel w ≡ (if ltb 0 (interactive_read w) then pos window.msg_start else c))))

module _ (b : Backend) (fuel : ℕ) where
  -- What a call of `send_to_pglite` that returns has done.
  pub send_returns :
      (encoded : Bytes) (w : World b.State) (window : Window)
      → (send_to_pglite b fuel encoded w).0 ≡ ok window
      → let w' = (interactive_one b fuel (put_request encoded w)).1 in
        ((interactive_one b fuel (put_request encoded w)).0 ≡ ok tt)
        × (send_to_pglite b fuel encoded w ≡ (ok (reply_window (length encoded) w'), w'))
  unfolding send_to_pglite gets modify ◌>>=◌
  send_returns encoded w window e =
      let (u, returned, same) =
        bind-ok (interactive_one b fuel) (λ _. gets (reply_window (length encoded)))
          (put_request encoded w) window e in
      (returned, same)

  -- If the request has at least two bytes, the client is connected, the prompt is off, no reply is
  -- pending, the backend raises no error before `sigsetjmp`, SOCKET_DATA counts what it writes, and
  -- `send_to_pglite` returns, then the window that the host reads starts two bytes after the request
  -- and has as many bytes as the backend wrote during the call, errors included, where the channel
  -- leads if that is not zero; or the backend has turned to files, the channel is -1 and the window
  -- is empty.
  pub send_to_pglite-IsDelivered :
      (written : b.State → ℕ) (encoded : Bytes) (w : World b.State) (window : Window)
      → Counts b written
      → IsCalm b
      → 2 ≤ length encoded
      → w.my_proc_port ≡ true
      → w.is_repl ≡ false
      → w.shared.socket_data ≡ 0
      → (send_to_pglite b fuel encoded w).0 ≡ ok window
      → IsDelivered written
          (length encoded)
          w.channel
          w.rest
          window
          (send_to_pglite b fuel encoded w).1
  unfolding get_channel reply_window interactive_read put_request
  send_to_pglite-IsDelivered written encoded w window counts calm long port off idle e =
      let (returned, same) = send_returns encoded w window e in
      let found =
        one-Delivered b written counts (length encoded) w.channel (written w.rest) fuel
          (put_request encoded w) calm long (refl, refl, refl, off, omega (arith, idle)) port idle
          returned in
      let is : window
          ≡ reply_window (length encoded) (interactive_one b fuel (put_request encoded w)).1 =
        cc in
      rw (is, same)
        (
          refl,
          elim found [
            | inl (files, empty, there) ↦ inl (files, omega (arith, empty), there)
            | inr (sized, there) ↦ inr (omega (arith, sized), there)
          ],
        )
