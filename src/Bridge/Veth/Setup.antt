-- ===== src/Bridge/Veth/Setup.antt =====
-- What `bridge_setup_veth` leaves behind.
use container_internals_simu.Prelude.{
  ℕ, ◌≤◌, ◌≡◌, refl, ap, ◌∙◌, inl, inr, true, false, Option, none, some, List, [], ◌∷◌, ◌++◌, take,
  arith, Bool-cases, ◌≢◌, sym, subst, get_or, ◌+◌, ◌==◌,
}
use container_internals_simu.Prelude.Int.{ℤ}
use container_internals_simu.Prelude.Text.{Text, codes}
use mathlib.Core.List.{append_assoc}
use container_internals_simu.Bridge.{
  Bridge, Host, Command, no_error, is_error, clear_last_error, run_silent, ip_delete, ip_up,
  Outcome, fork_failed, wait_failed, exited, signalled, outcome_error, keep_error,
}
use container_internals_simu.Bridge.Veth.{
  host_veth, peer_veth, ip_add_veth, ip_master, ip_netns, drop_veth, or_fail, bridge_setup_veth,
}

module _ (host : Host) (argv : Command) (step : Text) (b : Bridge) where
  run_silent-error :
      (run_silent host argv step b).1 ≡ false
      → is_error (run_silent host argv step b).0.last_error ≡ true
  unfolding run_silent
  run_silent-error h = ground arith

  run_silent_keeps :
      is_error b.last_error ≡ true → is_error (run_silent host argv step b).0.last_error ≡ true
  unfolding run_silent
  run_silent_keeps h = ground arith

  run_silent-success :
      (run_silent host argv step b).1 ≡ true
      → (run_silent host argv step b).0.last_error ≡ b.last_error
  unfolding run_silent
  run_silent-success h = ground arith

  -- It succeeds exactly when the command exits with 0.
  run_silent-exited : (run_silent host argv step b).1 ≡ true → host.run b.commands argv ≡ exited 0
  unfolding run_silent outcome_error keep_error
  run_silent-exited h = by_outcome (host.run b.commands argv) refl
    where
      by_outcome :
          (o : Outcome) → host.run b.commands argv ≡ o → host.run b.commands argv ≡ exited 0
      by_outcome (exited n) e = elim (Bool-cases (n == 0)) [
        | inl ok ↦ e ∙ ap exited (ground (arith, ok))
        | inr bad ↦ absurd (ground (arith, e, bad, h))
      ]
      by_outcome fork_failed e = absurd (ground (arith, e, h))
      by_outcome wait_failed e = absurd (ground (arith, e, h))
      by_outcome (signalled n) e = absurd (ground (arith, e, h))

  run_silent-not_exited :
      (run_silent host argv step b).1 ≡ false → host.run b.commands argv ≢ exited 0
  unfolding run_silent outcome_error keep_error
  run_silent-not_exited h e = absurd (ground (arith, e, h))

  run_silent-commands : (run_silent host argv step b).0.commands ≡ b.commands ++ argv ∷ []
  unfolding run_silent
  run_silent-commands = refl

drop_veth_lem :
    (host : Host) (dev : Text) (b : Bridge)
    → is_error b.last_error ≡ true
    → (is_error (drop_veth host dev b).last_error ≡ true)
      × ((drop_veth host dev b).commands ≡ b.commands ++ ip_delete dev ∷ [])
unfolding drop_veth
drop_veth_lem host dev b h =
    (run_silent_keeps host (ip_delete dev) (codes "veth cleanup") b h, refl)

extend :
    {c d : List Command} (before xs : List Command) (x : Command)
    → c ≡ before ++ xs
    → d ≡ c ++ x ∷ []
    → d ≡ before ++ (xs ++ x ∷ [])
extend before xs x e f =
    f ∙ ap (λ (r : List Command). r ++ x ∷ []) e ∙ append_assoc before xs (x ∷ [])

-- The rule for a command behind which the code goes on or jumps to `fail`.
or_fail_rule {ℓ} :
    (P : Bridge × Option (Text × Text) → Type ℓ) (host : Host) (dev : Text) (argv : Command)
    (step : Text) (b : Bridge) (next : Bridge → Bridge × Option (Text × Text))
    → ((b' : Bridge)
        → b'.commands ≡ b.commands ++ argv ∷ []
        → b'.last_error ≡ b.last_error
        → host.run b.commands argv ≡ exited 0
        → P (next b'))
    → ((b' : Bridge)
        → is_error b'.last_error ≡ true
        → b'.commands ≡ (b.commands ++ argv ∷ []) ++ ip_delete dev ∷ []
        → host.run b.commands argv ≢ exited 0
        → P (b', none))
    → P (or_fail host dev (run_silent host argv step b) next)
or_fail_rule P host dev argv step b next good bad =
    let r = run_silent host argv step b in
    elim (Bool-cases r.1) [
      | inl done ↦ rw done (
          good r.0 (run_silent-commands host argv step b) (run_silent-success host argv step b done)
            (run_silent-exited host argv step b done))
      | inr failed ↦
          let dropped = drop_veth_lem host dev r.0 (run_silent-error host argv step b failed) in
          rw failed (
            bad (drop_veth host dev r.0) dropped.0
              (dropped.1
                ∙ ap (λ (c : List Command). c ++ ip_delete dev ∷ [])
                    (run_silent-commands host argv step b))
              (run_silent-not_exited host argv step b failed))
    ]

-- The commands that make the pair and move its far end, in order.
abbrev pub veth_steps : Text → ℤ → List Command
veth_steps container_id pid =
    ip_add_veth (host_veth container_id) (peer_veth container_id)
    ∷ ip_master (host_veth container_id)
    ∷ ip_up (host_veth container_id)
    ∷ ip_netns (peer_veth container_id) pid
    ∷ []

-- The steps, each run behind those before it, exit with 0.
abbrev pub AllSucceed : Host → List Command → List Command → Type 0
AllSucceed host before [] = Unit
AllSucceed host before (argv ∷ steps) =
    (host.run before argv ≡ exited 0) × AllSucceed host (before ++ argv ∷ []) steps

-- What `bridge_setup_veth` leaves behind, with the commands before it.
pub data VethResult (host : Host) (container_id : Text) (pid : ℤ) (before : List Command)
    : Bridge × Option (Text × Text) → Type 0 where
  made :
      (b : Bridge)
      → AllSucceed host before (veth_steps container_id pid)
      → b.commands ≡ before ++ veth_steps container_id pid
      → b.last_error ≡ no_error
      → VethResult host container_id pid before
          (b, some (host_veth container_id, peer_veth container_id))
  not_created :
      (b : Bridge)
      → host.run before (ip_add_veth (host_veth container_id) (peer_veth container_id)) ≢ exited 0
      → b.commands ≡ before ++ take 1 (veth_steps container_id pid)
      → is_error b.last_error ≡ true
      → VethResult host container_id pid before (b, none)
  deleted :
      (b : Bridge) (n : ℕ)
      → 1 ≤ n
      → n ≤ 3
      → AllSucceed host before (take n (veth_steps container_id pid))
      → host.run
          (before ++ take n (veth_steps container_id pid))
          (get_or (veth_steps container_id pid) n [])
        ≢ exited 0
      → b.commands
        ≡ before
          ++ (take (n + 1) (veth_steps container_id pid) ++ ip_delete (host_veth container_id) ∷ [])
      → is_error b.last_error ≡ true
      → VethResult host container_id pid before (b, none)

-- The veth pair is set up by four commands, which create it, attach its host end to the bridge,
-- bring that up and move the other end. On success each of them, in this order, exited with 0,
-- there is no error, and the result are the names of the ends. Else there is an error, and either
-- the first command did not exit with 0 and was the only one, or a later one did not while those
-- before it did, and then the last command is the one that deletes the host end.
pub bridge_setup_veth-VethResult :
    (host : Host) (container_id : Text) (pid : ℤ) (b : Bridge)
    → VethResult host container_id pid b.commands (bridge_setup_veth host container_id pid b)
unfolding bridge_setup_veth
bridge_setup_veth-VethResult host container_id pid b =
    let near = host_veth container_id in
    let far = peer_veth container_id in
    let P = VethResult host container_id pid b.commands in
    let b0 = clear_last_error b in
    let r = run_silent host (ip_add_veth near far) (codes "veth pair creation") b0 in
    let s1 : List Command = ip_add_veth near far ∷ [] in
    let s2 : List Command = s1 ++ ip_master near ∷ [] in
    let s3 : List Command = s2 ++ ip_up near ∷ [] in
    let s4 : List Command = s3 ++ ip_netns far pid ∷ [] in
    let c1 = run_silent-commands host (ip_add_veth near far) (codes "veth pair creation") b0 in
    elim (Bool-cases r.1) [
      | inr failed ↦ rw failed (
          not_created r.0
            (run_silent-not_exited host (ip_add_veth near far) (codes "veth pair creation") b0
              failed)
            c1
            (run_silent-error host (ip_add_veth near far) (codes "veth pair creation") b0 failed))
      | inl created ↦
          let e1 =
            run_silent-success host (ip_add_veth near far) (codes "veth pair creation") b0
              created in
          let x1 =
            run_silent-exited host (ip_add_veth near far) (codes "veth pair creation") b0 created in
          rw created (
            or_fail_rule P host near (ip_master near) (codes "bridge attach") r.0 _
              (λ b2 c2 e2 y2.
                let at2 = extend b.commands s1 (ip_master near) c1 c2 in
                let x2 = moved (ip_master near) c1 y2 in
                or_fail_rule P host near (ip_up near) (codes "host veth bring-up") b2 _
                  (λ b3 c3 e3 y3.
                    let at3 = extend b.commands s2 (ip_up near) at2 c3 in
                    let x3 = moved (ip_up near) (split2 s1 (ip_master near) at2) y3 in
                    or_fail_rule P host near (ip_netns far pid)
                      (codes "move veth peer into container netns") b3 _
                      (λ b4 c4 e4 y4.
                        made b4
                          (x1, (x2, (x3, (moved (ip_netns far pid) (split3 _ _ _ at3) y4, tt))))
                          (extend b.commands s3 (ip_netns far pid) at3 c4) (e4 ∙ e3 ∙ e2 ∙ e1))
                      (λ b4 e4 c4 n4.
                        deleted b4 3 (omega arith) (omega arith) (x1, (x2, (x3, tt)))
                          (not_moved (ip_netns far pid) at3 n4)
                          (extend b.commands s4 (ip_delete near)
                            (extend b.commands s3 (ip_netns far pid) at3 refl) c4)
                          e4))
                  (λ b3 e3 c3 n3.
                    deleted b3 2 (omega arith) (omega arith) (x1, (x2, tt))
                      (not_moved (ip_up near) at2 n3)
                      (extend b.commands s3 (ip_delete near)
                        (extend b.commands s2 (ip_up near) at2 refl) c3)
                      e3))
              (λ b2 e2 c2 n2.
                deleted b2 1 (omega arith) (omega arith) (x1, tt) (not_moved (ip_master near) c1 n2)
                  (extend b.commands s2 (ip_delete near)
                    (extend b.commands s1 (ip_master near) c1 refl) c2)
                  e2))
    ]
  where
    moved :
        (argv : Command) {c d : List Command}
        → c ≡ d
        → host.run c argv ≡ exited 0
        → host.run d argv ≡ exited 0
    moved argv e h = subst (λ x. host.run x argv ≡ exited 0) e h

    not_moved :
        (argv : Command) {c d : List Command}
        → c ≡ d
        → host.run c argv ≢ exited 0
        → host.run d argv ≢ exited 0
    not_moved argv e h = subst (λ x. host.run x argv ≢ exited 0) e h

    split2 :
        (xs : List Command) (y : Command) {c : List Command}
        → c ≡ b.commands ++ (xs ++ y ∷ [])
        → c ≡ (b.commands ++ xs) ++ y ∷ []
    split2 xs y e = e ∙ sym (append_assoc b.commands xs (y ∷ []))

    split3 :
        (x y z : Command) {c : List Command}
        → c ≡ b.commands ++ x ∷ y ∷ z ∷ []
        → c ≡ ((b.commands ++ x ∷ []) ++ y ∷ []) ++ z ∷ []
    split3 x y z e = e ∙ sym (simp append_assoc)
