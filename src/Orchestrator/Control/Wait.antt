-- ===== src/Orchestrator/Control/Wait.antt =====
-- What the monitor does while `orch_run` waits for it.
use container_internals_simu.Prelude.{
  ℕ, ◌≡◌, refl, sym, subst, inl, inr, Bool, true, false, Option, none, some, List, [], ◌∷◌, ◌++◌,
  take, if◌then◌else◌, Bool-cases,
}
use container_internals_simu.Orchestrator.Types.{count}
use container_internals_simu.Orchestrator.State.{WorkItem, Orchestrator, Runtime, Action}
use container_internals_simu.Orchestrator.Monitor.{perform_all, tick}
use container_internals_simu.Orchestrator.Scan.{scan}
use container_internals_simu.Orchestrator.Control.{
  Pass, MonitorWait, run_passes, begin_pass, wait_for_monitor,
}

-- Passes of the monitor, one after the other, with their calls.
pub data Passes (rt : Runtime)
    : List Pass → Orchestrator → Orchestrator → List Action → Type 0 where
  done : (o : Orchestrator) → Passes rt [] o o []
  next :
      (p : Pass) (ps : List Pass) (o o' : Orchestrator) (calls : List Action)
      → Passes rt ps (tick rt p.now p.clock o).0 o' calls
      → Passes rt (p ∷ ps) o o' ((tick rt p.now p.clock o).1 ++ calls)

-- The pass under way at the end: its scan, and its first work items.
pub data Begun (rt : Runtime)
    : Option (Pass × ℕ) → Orchestrator → Orchestrator → List Action → Type 0 where
  asleep : (o : Orchestrator) → Begun rt none o o []
  ended :
      (p : Pass) (k : ℕ) (o : Orchestrator) → o.is_running ≡ false → Begun rt (some (p, k)) o o []
  begun :
      (p : Pass) (k : ℕ) (o scanned o' : Orchestrator) (work : List WorkItem)
      (found more : List Action)
      → o.is_running ≡ true
      → scan rt p.now (count o.spec) 0 o [] [] ≡ (scanned, work, found)
      → perform_all rt p.clock (take k work) scanned ≡ (o', more)
      → Begun rt (some (p, k)) o o' (found ++ more)

-- What the monitor has done when the wait is over: nothing, if its thread could not be created.
pub data Waited (rt : Runtime)
    : Option MonitorWait → Orchestrator → Orchestrator → List Action → Type 0 where
  not_created : (o : Orchestrator) → Waited rt none o o []
  waited :
      (wait : MonitorWait) (o o' o'' : Orchestrator) (calls more : List Action)
      → Passes rt wait.passes o o' calls
      → Begun rt wait.underway o' o'' more
      → Waited rt (some wait) o o'' (calls ++ more)

run_passes-Passes :
    (rt : Runtime) (ps : List Pass) (o : Orchestrator)
    → Passes rt ps o (run_passes rt ps o).0 (run_passes rt ps o).1
unfolding run_passes
run_passes-Passes rt [] o = done o
run_passes-Passes rt (p ∷ ps) o =
    next p ps o _ _ (run_passes-Passes rt ps (tick rt p.now p.clock o).0)

begin_pass-Begun :
    (rt : Runtime) (underway : Option (Pass × ℕ)) (o : Orchestrator)
    → Begun rt underway o (begin_pass rt underway o).0 (begin_pass rt underway o).1
unfolding begin_pass
begin_pass-Begun rt none o = asleep o
begin_pass-Begun rt (some (p, k)) o =
    let (scanned, work, found) = scan rt p.now (count o.spec) 0 o [] [] in
    let (after, more) = perform_all rt p.clock (take k work) scanned in
    let result : Bool → Orchestrator × List Action =
      λ b. if b then (after, found ++ more) else (o, []) in
    let goal : Bool → Type 0 = λ b. Begun rt (some (p, k)) o (result b).0 (result b).1 in
    elim (Bool-cases o.is_running) [
      | inl on ↦ subst goal (sym on) (begun p k o _ _ _ _ _ on refl refl)
      | inr off ↦ subst goal (sym off) (ended p k o off)
    ]

pub wait_for_monitor-Waited :
    (rt : Runtime) (monitor : Option MonitorWait) (o : Orchestrator)
    → Waited rt monitor o (wait_for_monitor rt monitor o).0 (wait_for_monitor rt monitor o).1
unfolding wait_for_monitor
wait_for_monitor-Waited rt none o = not_created o
wait_for_monitor-Waited rt (some wait) o =
    waited wait o _ _ _ _ (run_passes-Passes rt wait.passes o)
      (begin_pass-Begun rt wait.underway (run_passes rt wait.passes o).0)
