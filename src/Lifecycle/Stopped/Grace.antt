-- ===== src/Lifecycle/Stopped/Grace.antt =====
-- The grace period of `stop_container_process`.
use mathlib.Core.List.{append_assoc, append-nil}
use mathlib.Core.Path.{fun_ext}
use container_internals_simu.Prelude.{
  ℕ, zero, suc, ◌+◌, ◌*◌, ◌<◌, ◌≤◌, ◌≡◌, ◌≢◌, refl, sym, ap, ◌∙◌, inl, inr, ◌⊎◌, true, Option, none,
  some, [], ◌∷◌, ◌++◌, replicate, arith, subst,
}
use container_internals_simu.Prelude.Int.{ℤ, pos, negsuc, pos_part}
use container_internals_simu.Lifecycle.{
  WaitStatus, Wait, reaped, not_yet, no_child, interrupted, bad_wait, sigterm, Kill, delivered,
  no_process, refused, System, killed, slept, World, act,
}
use container_internals_simu.Lifecycle.Stop.{wait_ticks, tick_limit, stop_gently}
use container_internals_simu.Lifecycle.Stopped.{
  is_waiting, is_failure, AllWaiting, Waited, ended, not_ended,
}

AllWaiting-suc :
    (answer answer' : ℕ → Wait) (k : ℕ)
    → is_waiting (answer 0) ≡ true
    → ((j : ℕ) → answer' j ≡ answer (suc j))
    → AllWaiting answer' k
    → AllWaiting answer (suc k)
AllWaiting-suc answer answer' k first same waits zero lt = first
AllWaiting-suc answer answer' k first same waits (suc j) lt =
    sym (ap is_waiting (same j)) ∙ waits j (omega arith)

-- A tick that was spent waiting comes first.
Waited-suc :
    (answer answer' : ℕ → Wait) (left : ℕ) (w : World) (r : World × Option WaitStatus)
    → is_waiting (answer 0) ≡ true
    → ((j : ℕ) → answer' j ≡ answer (suc j))
    → Waited answer' left (act slept w) r
    → Waited answer (suc left) w r
Waited-suc answer answer' left w r first same (ended k status w' lt waits got b a) =
    ended (suc k) status w' (omega arith) (AllWaiting-suc answer answer' k first same waits)
      (sym (same k) ∙ got) b (a ∙ append_assoc w.actions (slept ∷ []) (replicate k slept))
Waited-suc answer answer' left w r first same (not_ended k w' why waits b a) =
    not_ended (suc k) w' (later why) (AllWaiting-suc answer answer' k first same waits) b
      (a ∙ append_assoc w.actions (slept ∷ []) (replicate k slept))
  where
    later :
        (k ≡ left) ⊎ ((k < left) × (is_failure (answer' k) ≡ true))
        → (suc k ≡ suc left) ⊎ ((suc k < suc left) × (is_failure (answer (suc k)) ≡ true))
    later (inl e) = inl (ap suc e)
    later (inr (lt, f)) = inr (omega arith, sym (ap is_failure (same k)) ∙ f)

wait_ticks-Waited :
    (answer : ℕ → Wait) (left tick : ℕ) (w : World)
    → Waited (λ j. answer (tick + j)) left w (wait_ticks answer left tick w)
unfolding wait_ticks
wait_ticks-Waited answer zero tick w =
    not_ended 0 w (inl refl) (λ j lt. absurd (omega arith)) refl (sym (append-nil w.actions))
wait_ticks-Waited answer (suc left) tick w =
    by_answer (answer tick) refl (wait_ticks-Waited answer left (tick + 1) (act slept w))
  where
    none_yet : AllWaiting (λ j. answer (tick + j)) 0
    none_yet j lt = absurd (omega arith)

    here : answer (tick + 0) ≡ answer tick
    here = ap answer (omega arith)

    shift : (j : ℕ) → answer (tick + 1 + j) ≡ answer (tick + suc j)
    shift j = ap answer (omega arith)

    by_answer :
        (a : Wait)
        → answer tick ≡ a
        → Waited
            (λ j. answer (tick + 1 + j))
            left
            (act slept w)
            (wait_ticks answer left (tick + 1) (act slept w))
        → Waited (λ j. answer (tick + j)) (suc left) w (wait_ticks answer (suc left) tick w)
    by_answer (reaped status) e later =
        rw (e, wait_ticks)
          (ended 0 status w (omega arith) none_yet (here ∙ e) refl (sym (append-nil w.actions)))
    by_answer not_yet e later =
        rw (e, wait_ticks) (Waited-suc _ _ left w _ (ap is_waiting (here ∙ e)) shift later)
    by_answer no_child e later =
        rw (e, wait_ticks)
          (not_ended 0 w (inr (omega arith, ap is_failure (here ∙ e))) none_yet refl
            (sym (append-nil w.actions)))
    by_answer interrupted e later =
        rw (e, wait_ticks) (Waited-suc _ _ left w _ (ap is_waiting (here ∙ e)) shift later)
    by_answer bad_wait e later =
        rw (e, wait_ticks)
          (not_ended 0 w (inr (omega arith, ap is_failure (here ∙ e))) none_yet refl
            (sym (append-nil w.actions)))

-- Ten ticks for each second, ten seconds if none are given.
abbrev pub limit : ℤ → ℕ
limit (pos zero) = 100
limit (pos (suc n)) = suc n * 10
limit (negsuc n) = 100

pub tick_limit-limit :
    (timeout_s : ℤ) → pos_part timeout_s ≤ 214748364 → tick_limit timeout_s ≡ limit timeout_s
unfolding tick_limit
tick_limit-limit (pos zero) h = refl
tick_limit-limit (pos (suc n)) h = ground arith
tick_limit-limit (negsuc n) h = refl

-- The process was not reaped in `k` ticks of the grace period: SIGTERM could not be sent, or all
-- ticks went by, or a wait failed.
pub data IsUnreaped (sys : System) (timeout_s pid : ℤ) (k : ℕ) : Type 0 where
  unsent : sys.kill pid sigterm ≢ delivered → k ≡ 0 → IsUnreaped sys timeout_s pid k
  waited :
      sys.kill pid sigterm ≡ delivered
      → AllWaiting (sys.tick_wait pid) k
      → (k ≡ limit timeout_s) ⊎ ((k < limit timeout_s) × (is_failure (sys.tick_wait pid k) ≡ true))
      → IsUnreaped sys timeout_s pid k

-- The outcome of the grace period.
pub data Gently (sys : System) (timeout_s pid : ℤ) (w : World)
    : World × Option WaitStatus → Type 0 where
  gone :
      (k : ℕ) (status : WaitStatus) (w' : World)
      → sys.kill pid sigterm ≡ delivered
      → k < limit timeout_s
      → AllWaiting (sys.tick_wait pid) k
      → sys.tick_wait pid k ≡ reaped status
      → w'.actions ≡ w.actions ++ killed pid sigterm ∷ replicate k slept
      → Gently sys timeout_s pid w (w', some status)
  there :
      (k : ℕ) (w' : World)
      → IsUnreaped sys timeout_s pid k
      → w'.actions ≡ w.actions ++ killed pid sigterm ∷ replicate k slept
      → Gently sys timeout_s pid w (w', none)

module _ (sys : System) (timeout_s pid : ℤ) (w : World)
    (short : pos_part timeout_s ≤ 214748364) where
  told :
      (k : ℕ) (w' : World)
      → w'.actions ≡ (act (killed pid sigterm) w).actions ++ replicate k slept
      → w'.actions ≡ w.actions ++ killed pid sigterm ∷ replicate k slept
  told k w' a = a ∙ append_assoc w.actions (killed pid sigterm ∷ []) (replicate k slept)

  Gently-Waited :
      (r : World × Option WaitStatus)
      → sys.kill pid sigterm ≡ delivered
      → Waited (sys.tick_wait pid) (limit timeout_s) (act (killed pid sigterm) w) r
      → Gently sys timeout_s pid w r
  Gently-Waited r e (ended k status w' lt waits got b a) =
      gone k status w' e lt waits got (told k w' a)
  Gently-Waited r e (not_ended k w' why waits b a) = there k w' (waited e waits why) (told k w' a)

  pub stop_gently-Gently : Gently sys timeout_s pid w (stop_gently sys timeout_s pid w)
  unfolding stop_gently
  stop_gently-Gently = by_result (sys.kill pid sigterm) refl
    where
      from_first :
          Waited
            (sys.tick_wait pid)
            (limit timeout_s)
            (act (killed pid sigterm) w)
            (wait_ticks (sys.tick_wait pid) (limit timeout_s) 0 (act (killed pid sigterm) w))
      from_first =
          subst
            (λ f.
              Waited f (limit timeout_s) (act (killed pid sigterm) w)
                (wait_ticks (sys.tick_wait pid) (limit timeout_s) 0 (act (killed pid sigterm) w)))
            (fun_ext (λ j. ap (sys.tick_wait pid) (omega arith)))
            (wait_ticks-Waited (sys.tick_wait pid) (limit timeout_s) 0 (act (killed pid sigterm) w))

      by_result :
          (a : Kill)
          → sys.kill pid sigterm ≡ a
          → Gently sys timeout_s pid w (stop_gently sys timeout_s pid w)
      by_result delivered e =
          rw (e, stop_gently)
            (Gently-Waited _ e (
              subst
                (λ n.
                  Waited (sys.tick_wait pid) (limit timeout_s) (act (killed pid sigterm) w)
                    (wait_ticks (sys.tick_wait pid) n 0 (act (killed pid sigterm) w)))
                (sym (tick_limit-limit timeout_s short)) from_first))
      by_result no_process e = rw (e, stop_gently) (there 0 _ (unsent (λ h. cc) refl) refl)
      by_result refused e = rw (e, stop_gently) (there 0 _ (unsent (λ h. cc) refl) refl)
