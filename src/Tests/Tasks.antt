-- ===== src/Tests/Tasks.antt =====
-- Clones and the ends of their tasks on the sample machine, whose new tasks have the number 2.
use microdbg_linux.Base.{◌≡◌, refl, [], ◌∷◌}
use microdbg_linux.Base.Assoc.{lookup, insert, erase}
use microdbg_linux.Exec.{State, done, ◌>>=◌}
use microdbg_linux.Sched.{clone, reap}
use microdbg_linux.Sched.Cloned.{Cloned, clone-Cloned}
use microdbg_linux.Sched.Live.{Reached, begin, cloned, reaped, HoldsLive, Reached-HoldsLive}
use microdbg_linux.Tests.Sample.{sample, start}

-- With CLONE_VFORK.
clone-Cloned_example :
    Cloned 0x4000 start (clone 0x4000 0 0 0 0 start).0 (clone 0x4000 0 0 0 0 start).1
clone-Cloned_example = clone-Cloned 0x4000 0 0 0 0 start

abbrev with_child : State sample
with_child = record start { tasks = (2, tt) ∷ [] }

clone_runs : clone 0 0 0 0 0 start ≡ (done 2, with_child)
unfolding clone insert ◌>>=◌
clone_runs = refl

child-Reached : Reached with_child ((2, tt) ∷ [])
unfolding lookup
child-Reached = cloned 0 0 0 0 0 start 2 tt (begin start refl) clone_runs refl refl refl

reap_runs : reap 2 tt with_child ≡ (done tt, start)
unfolding reap erase ◌>>=◌
reap_runs = refl

-- The child of the first clone has ended, and a second has its number.
twice-Reached : Reached with_child ((2, tt) ∷ [])
unfolding lookup
twice-Reached =
    cloned 0 0 0 0 0 start 2 tt (reaped 2 tt with_child [] [] child-Reached reap_runs) clone_runs
      refl refl refl

Reached-HoldsLive_example : HoldsLive with_child ((2, tt) ∷ [])
Reached-HoldsLive_example = Reached-HoldsLive with_child ((2, tt) ∷ []) twice-Reached
