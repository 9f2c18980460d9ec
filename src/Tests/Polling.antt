-- ===== src/Tests/Polling.antt =====
-- Polls of eight rounds: the message arrives in the fourth, or the program ends.
use torc_lite.Common.{refl, true, false, ◌==◌, arith, Always}
use torc_lite.Polling.{await_descriptor, await_request, receive_polled}
use torc_lite.Polling.Guarded.{Guards, polls-Guards}
use torc_lite.Polling.Ends.{Received, receive_polled-ends}
use torc_lite.Tests.Machine.{alike}
use torc_lite.Tests.Protocol.{node, thread, eight}
use torc_lite.Tests.Runtime.{refusal, runnable}

polls-Guards_example :
    Always Guards (await_descriptor (λ i. false) (λ i. i == 4) false 8)
    × Always Guards (await_request (λ i. false) (λ i. i == 4) false false 8)
polls-Guards_example = polls-Guards (λ i. false) (λ i. i == 4) 8 false

receive_polled-ends_example :
    Received alike eight refusal thread
      (λ i. false)
      (λ i. i == 4)
      true
      runnable
      1
      node
      (receive_polled alike eight refusal thread
        (λ i. false)
        (λ i. i == 4)
        false
        true
        8
        runnable
        1
        node)
receive_polled-ends_example =
    receive_polled-ends alike eight refusal thread (λ i. false) (λ i. i == 4) true 8 4 runnable 1
      node (omega arith) refl (λ i lo hi. ground arith)
