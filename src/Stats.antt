-- ===== src/Stats.antt =====
-- The statistics of a node: `_torc_print_statistics` of src/torc_runtime.c, and how the execution of
-- a task changes them. The tables of the counters have `MAX_NVPS` places,
-- and the model holds for nodes with no more workers.
use torc_lite.Common.{
  ℕ, zero, suc, ◌+◌, ◌-◌, ◌<◌, ◌≤◌, ◌≡◌, ◌≢◌, refl, ap, ◌∙◌, Bool, some, List, [], ◌∷◌, ◌++◌, ◌==◌,
  ==_false, ℕ_discrete, if◌then◌else◌, update, arith, Always-some, Always-then,
}
use torc_lite.Common.Int.{pos}
use torc_lite.Tally.{tally, tally-update}
use torc_lite.Desc.{Ptr, max_nvps}
use torc_lite.Table.{Table}
use torc_lite.Nodes.{torc_node_id}
use torc_lite.Node.{Node, Thread, set_desc, torc_put_reused_desc, torc_to_i_reuseq_end}
use torc_lite.Send.{send_descriptor, send_value}
use torc_lite.Exec.{Call, torc_cleanup, execute_enter, torc_core_execution, torc_execute}

-- `for (i = 0; i < kthreads; i++) total += counts[i];`, with `k` rounds left.
unfoldable pub total_loop : (counts : ℕ → ℕ) → (k i total : ℕ) → ℕ
total_loop counts zero i total = total
total_loop counts (suc k) i total = total_loop counts k (suc i) (total + counts i)

-- `for (i = 0; i < kthreads - 1; i++)`: the numbers printed for the workers but the last.
unfoldable pub print_loop : (counts : ℕ → ℕ) → (k i : ℕ) → List ℕ
print_loop counts zero i = []
print_loop counts (suc k) i = counts i ∷ print_loop counts k (suc i)

-- What is printed.
pub record Report : Type 0 where
  pub node : ℕ
  pub served : ℕ
  pub attempts : ℕ
  pub hits : ℕ
  pub total_created : ℕ
  pub total_executed : ℕ
  pub workers : List ℕ

unfoldable pub torc_print_statistics : Node → Report
unfolding total_loop print_loop
torc_print_statistics n =
    let k = n.cluster.kthreads in
    record {
      node = torc_node_id n.cluster;
      served = n.steal_served;
      attempts = n.steal_attempts;
      hits = n.steal_hits;
      total_created = total_loop n.created k 0 0;
      total_executed = total_loop n.executed k 0 0;
      workers = print_loop n.executed (k - 1) 0 ++ n.executed (k - 1) ∷ [];
    }

abbrev value : ℕ → ℕ → ℕ
value v x = x

total_loop-shift :
    (f : ℕ → ℕ) (k i n total : ℕ)
    → n ≡ i + k
    → total_loop f k i total + tally value f i ≡ total + tally value f n
unfolding total_loop tally
total_loop-shift f zero i n total e =
    let same : n ≡ i = omega arith in omega (arith, ap (tally value f) same)
total_loop-shift f (suc k) i n total e =
    omega (arith, total_loop-shift f k (suc i) n (total + f i) (omega arith))

total_loop-tally : (f : ℕ → ℕ) (k : ℕ) → total_loop f k 0 0 ≡ tally value f k
unfolding tally
total_loop-tally f k = omega (arith, total_loop-shift f k 0 k 0 (omega arith))

-- One more in one place, if it is one of the `k` places.
total_loop-update :
    (f : ℕ → ℕ) (k v : ℕ) → v < k → total_loop (update f v (f v + 1)) k 0 0 ≡ total_loop f k 0 0 + 1
total_loop-update f k v b = omega (
  arith,
  tally-update value f v k (f v + 1) b,
  total_loop-tally f k,
  total_loop-tally (update f v (f v + 1)) k,
)

-- The counters of executed tasks, and the number of workers.
pub record SameCounts (n n' : Node) : Type 0 where
  pub executed : n'.executed ≡ n.executed
  pub cluster : n'.cluster ≡ n.cluster

cleanup-SameCounts : (t : Thread) (p : Ptr) (n : Node) → SameCounts n (torc_cleanup t p n)
unfolding torc_cleanup torc_put_reused_desc torc_to_i_reuseq_end send_descriptor send_value
cleanup-SameCounts t p n = record { executed = ground arith; cluster = ground arith }

abbrev one_if : Bool → ℕ
one_if b = if b then 1 else 0

total_executed-same :
    (n n' : Node)
    → SameCounts n n'
    → (torc_print_statistics n').total_executed ≡ (torc_print_statistics n).total_executed
unfolding torc_print_statistics
total_executed-same n n' s = rw (s.executed, s.cluster) refl

enter_counted :
    (t : Thread) (p : Ptr) (v : ℕ) (n : Node)
    → (n.desc t.currt).vp_id ≡ pos v
    → (n.desc p).rte_type ≡ 1
    → ((execute_enter t p n).executed ≡ update n.executed v (n.executed v + 1))
      × ((execute_enter t p n).cluster ≡ n.cluster)
unfolding execute_enter
enter_counted t p v n e h = rw (e, h) (refl, refl)

enter-SameCounts :
    (t : Thread) (p : Ptr) (n : Node) → (n.desc p).rte_type ≢ 1 → SameCounts n (execute_enter t p n)
unfolding execute_enter
enter-SameCounts t p n ne =
    rw (==_false (n.desc p).rte_type 1 ne) (record { executed = refl; cluster = refl })

enter-executed :
    (t : Thread) (p : Ptr) (v : ℕ) (n : Node)
    → (n.desc t.currt).vp_id ≡ pos v
    → v < n.cluster.kthreads
    → (torc_print_statistics (execute_enter t p n)).total_executed
      ≡ (torc_print_statistics n).total_executed + one_if ((n.desc p).rte_type == 1)
unfolding torc_print_statistics
enter-executed t p v n e b = elim (ℕ_discrete (n.desc p).rte_type 1) [
  | yes h ↦
      let c = enter_counted t p v n e h in
      rw (c.0, c.1, h) (total_loop-update n.executed n.cluster.kthreads v b)
  | no ne ↦
      let s = enter-SameCounts t p n ne in
      rw (s.executed, s.cluster, ==_false (n.desc p).rte_type 1 ne) (omega arith)
]

-- On a node with at most `MAX_NVPS` workers, for which the table of the counters has places, the
-- execution of a task by the worker `v` of the node, if it does not abort, counts one executed
-- task more on the node if the task is a normal one (type 1), and none otherwise, if the task's
-- function counts none itself and leaves the machine as it is.
pub execute-counted :
    (run : Thread → Call → Node → Node) (table : Table) (t : Thread) (p : Ptr) (v : ℕ) (n n' : Node)
    → ((u : Thread) (c : Call) (m : Node) → SameCounts m (run u c m))
    → (n.desc t.currt).vp_id ≡ pos v
    → v < n.cluster.kthreads
    → n.cluster.kthreads ≤ max_nvps
    → torc_execute run table t p n ≡ some n'
    → (torc_print_statistics n').total_executed
      ≡ (torc_print_statistics n).total_executed + one_if ((n.desc p).rte_type == 1)
unfolding torc_execute
execute-counted run table t p v n n' keeps e b few =
    Always-then Counted (torc_core_execution table (torc_node_id n.cluster) (n1.desc p)) _
      (λ call.
        let m = set_desc p (record (n1.desc p) { work = call.function }) n1 in
        Always-some Counted _ (
          total_executed-same _ _ (cleanup-SameCounts self p (run self call m))
          ∙ total_executed-same m _ (keeps self call m)
          ∙ total_executed-same n1 m (record { executed = refl; cluster = refl })
          ∙ enter-executed t p v n e b))
      n'
  where
    n1 : Node
    n1 = execute_enter t p n

    self : Thread
    self = record t { currt = p }

    Counted : Node → Type 0
    Counted m =
        (torc_print_statistics m).total_executed
        ≡ (torc_print_statistics n).total_executed + one_if ((n.desc p).rte_type == 1)
