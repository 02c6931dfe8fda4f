-- ===== src/Logs/Writer/Laws.antt =====
-- What becomes of the logs that are handed to the writer.
use majordomo_gateway.Base.{
  ◌+◌, ◌≤◌, ◌<◌, ◌≡◌, refl, sym, ap, ◌∙◌, Bool, true, false, ◌&&◌, List, [], ◌∷◌, ◌++◌, map, arith,
  length, length-append, append_assoc, append_nil,
}
use majordomo_gateway.Logs.Writer.{
  WriterState, fresh_writer, enqueue, drop_log, write_log, return_loop, close_done, close_db,
  WriterRun, started, then_step, capacity,
}

module _ {L : Type 0} (exec : L → Bool) where
  -- The logs that a run put into the channel, in their order.
  pub accepted : {s t : WriterState L} → WriterRun L exec s t → List L
  accepted started = []
  accepted (then_step s t run (enqueue _ log _)) = accepted run ++ log ∷ []
  accepted (then_step s t run (drop_log _ _ _)) = accepted run
  accepted (then_step s t run (write_log _ _ _ _ _)) = accepted run
  accepted (then_step s t run (return_loop _ _ _ _)) = accepted run
  accepted (then_step s t run (close_done _)) = accepted run
  accepted (then_step s t run (close_db _ _)) = accepted run

  -- What holds of a writer that has accepted `logs`.
  pub record IsKept (s : WriterState L) (logs : List L) : Type 0 where
    -- each is written or waits, in the order of its coming, and once
    pub in_order : map (λ w. w.0) s.written ++ s.queue ≡ logs
    pub bounded : length s.queue ≤ capacity
    pub closing : s.db_open ≡ false → s.done ≡ true
    -- until the writer is closed, a log that is written is stored unless the database refuses it
    pub stored : s.done ≡ false → map (λ w. w.1) s.written ≡ map (λ w. exec (w.0)) s.written

  map_last :
      {A B : Type 0} (f : A → B) (xs : List A) (x : A) → map f (xs ++ x ∷ []) ≡ map f xs ++ f x ∷ []
  map_last f [] x = refl
  map_last f (y ∷ xs) x = ap (λ l. f y ∷ l) (map_last f xs x)

  clash : {b : Bool} → b ≡ true → b ≡ false → ⊥
  clash h k = cc

  enqueue-IsKept :
      (s : WriterState L) (log : L) (logs : List L)
      → length s.queue < capacity
      → IsKept s logs
      → IsKept (record s { queue = s.queue ++ log ∷ [] }) (logs ++ log ∷ [])
  enqueue-IsKept s log logs h k = record {
    in_order =
        sym (append_assoc (map (λ w. w.0) s.written) s.queue (log ∷ []))
        ∙ ap (λ l. l ++ log ∷ []) k.in_order;
    bounded = omega (arith, length-append s.queue (log ∷ []));
    closing = k.closing;
    stored = k.stored;
  }

  open_exec :
      (o d : Bool) (log : L) → (o ≡ false → d ≡ true) → d ≡ false → (o && exec log) ≡ exec log
  open_exec true d log c h = refl
  open_exec false d log c h = absurd (clash (c refl) h)

  write_log-IsKept :
      (s : WriterState L) (log : L) (rest logs : List L)
      → s.queue ≡ log ∷ rest
      → IsKept s logs
      → IsKept
          (record s { queue = rest; written = s.written ++ (log, s.db_open && exec log) ∷ [] })
          logs
  write_log-IsKept s log rest logs h k = record {
    in_order =
        ap (λ l. l ++ rest) (map_last (λ w. w.0) s.written (log, s.db_open && exec log))
        ∙ append_assoc (map (λ w. w.0) s.written) (log ∷ []) rest
        ∙ ap (λ q. map (λ w. w.0) s.written ++ q) (sym h)
        ∙ k.in_order;
    bounded = omega (arith, k.bounded, ap length h);
    closing = k.closing;
    stored = λ d.
        map_last (λ w. w.1) s.written (log, s.db_open && exec log)
        ∙ ap (λ l. l ++ (s.db_open && exec log) ∷ []) (k.stored d)
        ∙ ap (λ b. map (λ w. exec (w.0)) s.written ++ b ∷ [])
            (open_exec s.db_open s.done log k.closing d)
        ∙ sym (map_last (λ w. exec (w.0)) s.written (log, s.db_open && exec log));
  }

  -- In every order of the steps, the logs that the channel takes are written in the order in which they
  -- came, each once, or wait, and no more than a thousand wait; until the writer is closed, one that is
  -- written is stored unless the database refuses it.
  pub accepted-IsKept :
      {t : WriterState L} (run : WriterRun L exec (fresh_writer L) t) → IsKept t (accepted run)
  unfolding accepted fresh_writer
  accepted-IsKept started = record {
    in_order = refl;
    bounded = omega arith;
    closing = λ h. absurd (clash refl h);
    stored = λ h. refl;
  }
  accepted-IsKept (then_step s t run (enqueue _ log h)) =
      enqueue-IsKept s log (accepted run) h (accepted-IsKept run)
  accepted-IsKept (then_step s t run (drop_log _ log h)) =
      let k = accepted-IsKept run in
      record { in_order = k.in_order; bounded = k.bounded; closing = k.closing; stored = k.stored }
  accepted-IsKept (then_step s t run (write_log _ log rest r h)) =
      write_log-IsKept s log rest (accepted run) h (accepted-IsKept run)
  accepted-IsKept (then_step s t run (return_loop _ _ _ _)) =
      let k = accepted-IsKept run in
      record { in_order = k.in_order; bounded = k.bounded; closing = k.closing; stored = k.stored }
  accepted-IsKept (then_step s t run (close_done _)) =
      let k = accepted-IsKept run in
      record {
        in_order = k.in_order;
        bounded = k.bounded;
        closing = λ h. refl;
        stored = λ h. absurd (clash refl h);
      }
  accepted-IsKept (then_step s t run (close_db _ d)) =
      let k = accepted-IsKept run in
      record {
        in_order = k.in_order;
        bounded = k.bounded;
        closing = λ h. d;
        stored = λ h. absurd (clash d h);
      }

  enqueue_all :
      (s : WriterState L) (run : WriterRun L exec (fresh_writer L) s) (logs : List L)
      → length s.queue + length logs ≤ capacity
      → (t : WriterState L) × (run' : WriterRun L exec (fresh_writer L) t) × (accepted run'
          ≡ accepted run ++ logs)
        × (t.queue ≡ s.queue ++ logs)
        × (t.written ≡ s.written)
        × (t.running ≡ s.running)
  unfolding accepted
  enqueue_all s run [] h =
      (s, run, sym (append_nil (accepted run)), sym (append_nil s.queue), refl, refl)
  enqueue_all s run (log ∷ logs) h =
      let step = enqueue s log (omega arith) in
      let (t, run', a, q, w, r) =
        enqueue_all (record s { queue = s.queue ++ log ∷ [] }) (then_step s _ run step) logs
          (omega (arith, length-append s.queue (log ∷ []))) in
      (
        t,
        run',
        a ∙ append_assoc (accepted run) (log ∷ []) logs,
        q ∙ append_assoc s.queue (log ∷ []) logs,
        w,
        r,
      )

  -- A closed database takes nothing.
  drain_lost :
      (s : WriterState L) (run : WriterRun L exec (fresh_writer L) s) (logs : List L)
      → s.queue ≡ logs
      → s.running ≡ true
      → s.done ≡ true
      → s.db_open ≡ false
      → (t : WriterState L) × (run' : WriterRun L exec (fresh_writer L) t) × (accepted run'
          ≡ accepted run)
        × (t.queue ≡ [])
        × (t.running ≡ false)
        × (t.written ≡ s.written ++ map (λ log. (log, false)) logs)
  unfolding accepted
  drain_lost s run [] q r d o = (
    record s { running = false },
    then_step s _ run (return_loop s r d q),
    refl,
    q,
    refl,
    sym (append_nil s.written),
  )
  drain_lost s run (log ∷ logs) q r d o =
      let s' : WriterState L = record s {
        queue = logs;
        written = s.written ++ (log, s.db_open && exec log) ∷ [];
      } in
      let (t, run', a, e, f, w) =
        drain_lost s' (then_step s s' run (write_log s log logs r q)) logs refl r d o in
      (
        t,
        run',
        a,
        e,
        f,
        w
            ∙ append_assoc s.written ((log, s.db_open && exec log) ∷ [])
                (map (λ log. (log, false)) logs)
            ∙ ap (λ b. s.written ++ (log, b && exec log) ∷ map (λ log. (log, false)) logs) o,
      )

  -- Close does not wait for the logs that wait: whatever they are, up to a thousand, there is an order of
  -- the steps in which the writer takes all of them, is closed and ends, and the database has none.
  pub close_may_lose :
      (logs : List L)
      → length logs ≤ capacity
      → (t : WriterState L) × (run : WriterRun L exec (fresh_writer L) t) × (accepted run ≡ logs)
        × (t.running ≡ false)
        × (t.written ≡ map (λ log. (log, false)) logs)
  unfolding accepted fresh_writer
  close_may_lose logs h =
      let (s, run, a, q, w, r) = enqueue_all (fresh_writer L) started logs (omega (arith, h)) in
      let closing : WriterState L = record s { done = true } in
      let closed : WriterState L = record closing { db_open = false } in
      let run' =
        then_step closing closed (then_step s closing run (close_done s)) (close_db closing refl) in
      let (t, run3, a', _, e, w') = drain_lost closed run' logs q r refl refl in
      (t, run3, a' ∙ a, e, w' ∙ ap (λ l. l ++ map (λ log. (log, false)) logs) w)
