-- ===== src/Args.antt =====
-- The messages that carry the arguments of a task between nodes, src/torc_comm.c and
-- src/torc_server.c. MPI is not part of the program: a send or a receive is the record of its
-- envelope, and the handles and sizes of the data types are parameters.
pub mod Agree
pub mod Buffers
use torc_lite.Common.{
  ℕ, zero, suc, ◌+◌, ◌*◌, Bool, true, false, ◌&&◌, ◌||◌, not, Option, none, some, List, [], ◌∷◌,
  ◌++◌, ◌==◌, ltb, if◌then◌else◌, update, ◌>>=◌,
}
use torc_lite.Desc.{
  Arg, Desc, call_by_cop, call_by_ref, call_by_res, call_by_ptr, call_by_cop2, call_by_vad,
}
use torc_lite.Types.{Handles, torc_b2mpi_type}

-- Where the bytes of a message are: in the descriptor's own slot number i, or at an address.
pub data Place : Type 0 where
  temp_slot local_slot : ℕ → Place
  address : ℕ → Place

-- `MPI_Isend(place, count, dtype, node, tag, …)`, or `MPI_Irecv` from that node.
pub record Packet : Type 0 where
  pub place : Place
  pub count : ℕ
  pub dtype : ℕ
  pub node : ℕ
  pub tag : ℕ

-- The part of a packet that its sender and its receiver must agree on.
abbrev pub envelope : Packet → ℕ × ℕ × ℕ
envelope p = (p.count, p.dtype, p.tag)

abbrev is_reference : Arg → Bool
is_reference a = (a.callway == call_by_ref) || (a.callway == call_by_res)

-- `send_arguments`: what is sent for argument number i.
unfoldable pub send_argument : (node tag : ℕ) → Desc → ℕ → List Packet
send_argument node tag d i =
    let a = d.args i in
    if a.quantity == 0
    then []
    else if (a.callway == call_by_cop) || (a.callway == call_by_vad)
    then (if a.quantity == 1
        then []
        else record {
          place = if d.homenode == d.sourcenode then local_slot i else temp_slot i;
          count = a.quantity;
          dtype = a.dtype;
          node = node;
          tag = tag;
        }
          ∷ [])
    else if (a.callway == call_by_ref)
        || ((a.callway == call_by_ptr) || (a.callway == call_by_cop2))
    then record {
      place = address (if d.homenode == d.sourcenode then a.localarg else a.temparg);
      count = a.quantity;
      dtype = a.dtype;
      node = node;
      tag = tag;
    }
      ∷ []
    else []

unfoldable pub send_loop : (node tag : ℕ) → Desc → (k i : ℕ) → List Packet
unfolding send_argument
send_loop node tag d zero i = []
send_loop node tag d (suc k) i = send_argument node tag d i ++ send_loop node tag d k (suc i)

unfoldable pub send_arguments : (node tag : ℕ) → Desc → List Packet
unfolding send_loop
send_arguments node tag d = send_loop node tag d d.narg 0

-- `send_descriptor`, case TORC_ANSWER: the results that go back for argument number i.
unfoldable pub send_result : (tag : ℕ) → Desc → ℕ → List Packet
send_result tag d i =
    let a = d.args i in
    if a.quantity == 0
    then []
    else if is_reference a
    then record {
      place = address a.temparg;
      count = a.quantity;
      dtype = a.dtype;
      node = d.homenode;
      tag = tag;
    }
      ∷ []
    else []

unfoldable pub result_loop : (tag : ℕ) → Desc → (k i : ℕ) → List Packet
unfolding send_result
result_loop tag d zero i = []
result_loop tag d (suc k) i = send_result tag d i ++ result_loop tag d k (suc i)

unfoldable pub send_results : (tag : ℕ) → Desc → List Packet
unfolding result_loop
send_results tag d = result_loop tag d d.narg 0

-- The same case: the buffers that are freed for argument number i, once it is sent.
unfoldable pub free_result : Desc → ℕ → List ℕ
free_result d i =
    let a = d.args i in
    if a.quantity == 0
    then []
    else (if (a.callway == call_by_cop2) && ltb 1 a.quantity then a.temparg ∷ [] else [])
      ++ (if is_reference a && ltb 1 a.quantity then a.temparg ∷ [] else [])

unfoldable pub free_results_loop : Desc → (k i : ℕ) → List ℕ
unfolding free_result
free_results_loop d zero i = []
free_results_loop d (suc k) i = free_result d i ++ free_results_loop d k (suc i)

unfoldable pub free_results : Desc → List ℕ
unfolding free_results_loop
free_results d = free_results_loop d d.narg 0

-- What `receive_arguments` has done so far: the arguments, the address that the next `calloc`
-- returns, the buffers allocated and their sizes, and the receives.
pub record Received : Type 0 where
  pub args : ℕ → Arg
  pub fresh : ℕ
  pub blocks : List (ℕ × ℕ)
  pub packets : List Packet

abbrev pub start : (fresh : ℕ) → Desc → Received
start fresh d = record { args = d.args; fresh = fresh; blocks = []; packets = [] }

module _ (h : Handles) (type_size : ℕ → ℕ) where
  -- `none` is the abort for an unsupported data type.
  unfoldable pub receive_argument : (tag : ℕ) → Desc → ℕ → Received → Option Received
  receive_argument tag d i r =
      let a = r.args i in
      if a.quantity == 0
      then some r
      else if ltb 1 a.quantity || (not (a.callway == call_by_cop) && not (a.callway == call_by_vad))
      then (do
        dtype ← torc_b2mpi_type h a.btype
        some (record {
          args = update r.args i (record a { dtype = dtype; temparg = r.fresh });
          fresh = r.fresh + 1;
          blocks = r.blocks ++ (r.fresh, a.quantity * type_size dtype) ∷ [];
          packets =
              r.packets
              ++ (if a.callway == call_by_res
                  then []
                  else record {
                    place = address r.fresh;
                    count = a.quantity;
                    dtype = dtype;
                    node = d.sourcenode;
                    tag = tag;
                  }
                    ∷ []);
        }))
      else some (record r { args = update r.args i (record a { temparg = a.localarg }) })

  unfoldable pub receive_loop : (tag : ℕ) → Desc → (k i : ℕ) → Received → Option Received
  unfolding receive_argument
  receive_loop tag d zero i r = some r
  receive_loop tag d (suc k) i r = receive_argument tag d i r >>= receive_loop tag d k (suc i)

  unfoldable pub receive_arguments : (tag fresh : ℕ) → Desc → Option Received
  unfolding receive_loop
  receive_arguments tag fresh d = receive_loop tag d d.narg 0 (start fresh d)

module _ (h : Handles) where
  -- `process_a_received_descriptor`, case TORC_ANSWER: the receives for argument number i.
  unfoldable pub receive_result : (tag : ℕ) → Desc → ℕ → Option (List Packet)
  receive_result tag d i =
      let a = d.args i in
      if a.quantity == 0
      then some []
      else if is_reference a
      then (do
        dtype ← torc_b2mpi_type h a.btype
        some (
            record {
              place = address a.localarg;
              count = a.quantity;
              dtype = dtype;
              node = d.sourcenode;
              tag = tag;
            }
            ∷ []))
      else some []

  unfoldable pub receive_results_loop : (tag : ℕ) → Desc → (k i : ℕ) → Option (List Packet)
  unfolding receive_result
  receive_results_loop tag d zero i = some []
  receive_results_loop tag d (suc k) i = do
    ps ← receive_result tag d i
    qs ← receive_results_loop tag d k (suc i)
    some (ps ++ qs)

  unfoldable pub receive_results : (tag : ℕ) → Desc → Option (List Packet)
  unfolding receive_results_loop
  receive_results tag d = receive_results_loop tag d d.narg 0
