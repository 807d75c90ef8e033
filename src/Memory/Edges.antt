-- ===== src/Memory/Edges.antt =====
-- Edges between entities: the current edges in two mirrors, and their history in two more.
use plugmem.Base.{ℕ, ◌+◌, ◌%◌, ◌^◌, drop, Option, none, some, Bool, true, false}
use plugmem.Base.{if◌then◌else◌, ◌==◌}
use plugmem.Base.Bytes.{Bytes}
use plugmem.Errors.{Error}
use plugmem.Paged.{replicate}
use plugmem.Model.{valid_to_open}
use plugmem.Model.Edges.{
  EdgeSlot, EdgeHistorySlot, edge_key, edge_history_key, close_edge_history_payload, write_edge,
}
use plugmem.Memory.{Stores, Memory, Act, done, failed, ◌>>=◌, give, attempt, of_arena, expect}
use plugmem.Memory.Entities.{resolve_or_create_entity, lookup_entity_name, intern_term}
use Prim.Native.Nat.{max}

module _ (P : Stores) where
  unfoldable pub current_edge : Memory P → ℕ → ℕ → ℕ → Option EdgeSlot
  current_edge m src rel dst = P.edges.get (edge_key src rel dst) m.edges_out

  unfoldable pub insert_out : EdgeSlot → Act (Memory P) Bool
  insert_out slot m =
      let made = P.edges.insert slot m.edges_out in
      attempt (of_arena made.1) (record m { edges_out = made.0 })

  unfoldable pub insert_in : EdgeSlot → Act (Memory P) Bool
  insert_in slot m =
      let made = P.edges.insert slot m.edges_in in
      attempt (of_arena made.1) (record m { edges_in = made.0 })

  -- A duplicate key keeps its slot, and gets the new payload.
  unfoldable pub refresh : EdgeSlot → P.edges.Rows → Option P.edges.Rows
  refresh slot rows =
      P.edges.payload_mut (edge_key slot.a slot.rel slot.b)
        (λ payload. drop 12 (write_edge slot (replicate 28 0))) rows

  unfoldable pub refresh_out : EdgeSlot → Act (Memory P) Unit
  refresh_out slot m =
      (expect (refresh slot m.edges_out) >>= λ rows n. (record n { edges_out = rows }, done tt)) m

  unfoldable pub refresh_in : EdgeSlot → Act (Memory P) Unit
  refresh_in slot m =
      (expect (refresh slot m.edges_in) >>= λ rows n. (record n { edges_in = rows }, done tt)) m

  unfoldable pub put_out : EdgeSlot → Act (Memory P) Unit
  put_out slot = insert_out slot >>= λ fresh. if fresh then give tt else refresh_out slot

  unfoldable pub put_in : EdgeSlot → Act (Memory P) Unit
  put_in slot = insert_in slot >>= λ fresh. if fresh then give tt else refresh_in slot

  unfoldable pub insert_current_edge : ℕ → ℕ → ℕ → ℕ → ℕ → ℕ → Act (Memory P) Unit
  insert_current_edge src rel dst fact edge valid_from = do
    u ←
        put_out (record {
          a = src;
          rel = rel;
          b = dst;
          fact = fact;
          edge = edge;
          valid_from = valid_from;
        })
    put_in
        (record { a = dst; rel = rel; b = src; fact = fact; edge = edge; valid_from = valid_from })

  unfoldable pub insert_hist_out : EdgeHistorySlot → Act (Memory P) Bool
  insert_hist_out edge m =
      let made = P.history.insert edge m.hist_out in
      attempt (of_arena made.1) (record m { hist_out = made.0 })

  unfoldable pub insert_hist_in : EdgeHistorySlot → Act (Memory P) Bool
  insert_hist_in edge m =
      let made = P.history.insert edge m.hist_in in
      attempt (of_arena made.1) (record m { hist_in = made.0 })

  unfoldable pub insert_history_edge : EdgeHistorySlot → Act (Memory P) Unit
  insert_history_edge edge = do
    fresh ← insert_hist_out edge
    mirrored ← insert_hist_in (record edge { a = edge.b; b = edge.a })
    give tt

  unfoldable pub close_hist_out : Bytes → ℕ → Act (Memory P) Unit
  close_hist_out key close_at m =
      elim (P.history.payload_mut key (close_edge_history_payload close_at) m.hist_out) [
        | none ↦ (m, failed (Error.corrupt "missing outgoing edge history"))
        | some rows ↦ (record m { hist_out = rows }, done tt)
      ]

  unfoldable pub close_hist_in : Bytes → ℕ → Act (Memory P) Unit
  close_hist_in key close_at m =
      elim (P.history.payload_mut key (close_edge_history_payload close_at) m.hist_in) [
        | none ↦ (m, failed (Error.corrupt "missing incoming edge history"))
        | some rows ↦ (record m { hist_in = rows }, done tt)
      ]

  unfoldable pub remove_mirrors : ℕ → ℕ → ℕ → Act (Memory P) Bool
  remove_mirrors src rel dst m =
      let out = P.edges.remove (edge_key src rel dst) m.edges_out in
      let back = P.edges.remove (edge_key dst rel src) m.edges_in in
      let after : Memory P = record m { edges_out = out.0; edges_in = back.0 } in
      if out.1
      then (if back.1
          then (after, done true)
          else (after, failed (Error.corrupt "edge mirrors disagree")))
      else (if back.1
          then (after, failed (Error.corrupt "edge mirrors disagree"))
          else (after, done false))

  unfoldable pub close_edge : ℕ → ℕ → ℕ → ℕ → EdgeSlot → Act (Memory P) Bool
  close_edge now src rel dst current =
      let close_at : ℕ = max now current.valid_from in
      do
        u ← close_hist_out (edge_history_key src current.valid_from current.edge) close_at
        v ← close_hist_in (edge_history_key dst current.valid_from current.edge) close_at
        remove_mirrors src rel dst

  unfoldable pub close_current_edge : ℕ → ℕ → ℕ → ℕ → Act (Memory P) Bool
  close_current_edge now src rel dst m = elim (current_edge m src rel dst) [
    | none ↦ (m, done false)
    | some current ↦ close_edge now src rel dst current m
  ]

  unfoldable pub take_edge_id : Act (Memory P) Unit
  take_edge_id m = (record m { next_edge = (m.next_edge + 1) % 2 ^ 32 }, done tt)

  -- A new version of the edge, open from now on.
  unfoldable pub add_edge : ℕ → ℕ → ℕ → ℕ → ℕ → Act (Memory P) Unit
  add_edge now src rel dst fact = do
    edge ← (λ m. (m, done m.next_edge))
    u ← insert_history_edge (record {
      a = src;
      rel = rel;
      b = dst;
      edge = edge;
      fact = fact;
      flags = 0;
      kind = 0;
      recorded_at = now;
      valid_from = now;
      valid_to = valid_to_open;
    })
    v ← insert_current_edge src rel dst fact edge now
    take_edge_id

  unfoldable pub open_edge : ℕ → ℕ → ℕ → ℕ → ℕ → Act (Memory P) Unit
  open_edge now src rel dst fact m = elim (current_edge m src rel dst) [
    | none ↦ add_edge now src rel dst fact m
    | some current ↦
        if current.fact == fact
        then (m, done tt)
        else (close_current_edge now src rel dst >>= λ closed. add_edge now src rel dst fact) m
  ]

  unfoldable pub apply_link : ℕ → Bytes → Bytes → Bytes → ℕ → Act (Memory P) Unit
  apply_link now src rel dst provenance = do
    s ← resolve_or_create_entity P src now
    d ← resolve_or_create_entity P dst now
    r ← intern_term P rel
    open_edge now s r d provenance

  unfoldable pub apply_unlink : ℕ → Bytes → Bytes → Bytes → Act (Memory P) Bool
  apply_unlink now src rel dst m = elim (lookup_entity_name P m src) [
    | none ↦ (m, done false)
    | some s ↦ elim (lookup_entity_name P m dst) [
      | none ↦ (m, done false)
      | some d ↦ elim (P.lookup rel m.terms) [
        | none ↦ (m, done false)
        | some r ↦ close_current_edge now s r d m
      ]
    ]
  ]
