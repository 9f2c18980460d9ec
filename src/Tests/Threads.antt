-- ===== src/Tests/Threads.antt =====
-- A node with two threads, from their start to their end.
use torc_lite.Common.{ℕ, ◌≤◌, ◌<◌, ◌≡◌, refl, true, Option, none, some, arith}
use torc_lite.Threads.{
  exited, Threads, before_start, step, torc_end, Reach, begins, goes_on, finalizes, Steps,
}
use torc_lite.Threads.Over.{Reach-ends}
use torc_lite.Threads.Places.{stage}
use torc_lite.Threads.Runs.{Reach-ready, Reach-last}

abbrev or_else : Threads → Option Threads → Threads
or_else s none = s
or_else s (some s') = s'

abbrev go : ℕ → Threads → Threads
go v s = or_else s (step 2 v s)

-- The main thread starts the worker 1, fills the table and is counted; the worker is counted; both
-- begin to work.
abbrev s1 : Threads
s1 = go 0 before_start

r1 : Reach 2 s1
unfolding step
r1 = goes_on 0 begins refl

abbrev s2 : Threads
s2 = go 0 s1

r2 : Reach 2 s2
unfolding step
r2 = goes_on 0 r1 refl

abbrev s3 : Threads
s3 = go 0 s2

r3 : Reach 2 s3
unfolding step
r3 = goes_on 0 r2 refl

abbrev s4 : Threads
s4 = go 0 s3

r4 : Reach 2 s4
unfolding step
r4 = goes_on 0 r3 refl

abbrev s5 : Threads
s5 = go 1 s4

r5 : Reach 2 s5
unfolding step
r5 = goes_on 1 r4 refl

abbrev s6 : Threads
s6 = go 0 s5

r6 : Reach 2 s6
unfolding step
r6 = goes_on 0 r5 refl

abbrev s7 : Threads
s7 = go 1 s6

r7 : Reach 2 s7
unfolding step
r7 = goes_on 1 r6 refl

abbrev ended : Threads
ended = torc_end 0 s7

ended-Reach : Reach 2 ended
unfolding step
ended-Reach = finalizes 0 r7 refl

abbrev s8 : Threads
s8 = go 1 ended

r8 : Reach 2 s8
unfolding step torc_end
r8 = goes_on 1 ended-Reach refl

abbrev s9 : Threads
s9 = go 1 s8

r9 : Reach 2 s9
unfolding step torc_end
r9 = goes_on 1 r8 refl

abbrev s10 : Threads
s10 = go 0 s9

r10 : Reach 2 s10
unfolding step torc_end
r10 = goes_on 0 r9 refl

s7_works : 5 ≤ stage (s7.place 1)
unfolding step
s7_works = omega arith

s10_exited : s10.place 0 ≡ exited
unfolding step torc_end
s10_exited = refl

Reach-ready_example :
    (s7.node_info_ready ≡ true)
    × (s7.created_workers ≡ 2)
    × ((u : ℕ) → u < 2 → 4 ≤ stage (s7.place u))
Reach-ready_example = Reach-ready 2 (omega arith) (omega arith) 1 r7 s7_works

Reach-last_example : s10.place 1 ≡ exited
Reach-last_example =
    Reach-last 2 (omega arith) (omega arith) r10 s10_exited 1 (omega arith) (omega arith)

ended_1 : ended.appl_finished ≡ 1
unfolding step torc_end
ended_1 = refl

Reach-ends_example : (s' : Threads) × (Steps 2 ended s') × ((u : ℕ) → u < 2 → s'.place u ≡ exited)
Reach-ends_example = Reach-ends 2 (omega arith) (omega arith) ended-Reach ended_1
