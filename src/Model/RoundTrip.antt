-- ===== src/Model/RoundTrip.antt =====
-- Slots read back as the records that were written.
use plugmem.Model.Facts.{fact_slot, write_fact, read_fact, aux_slot, write_aux, read_aux}
use plugmem.Model.Entities.{
  entity_slot, write_entity, read_entity, by_name_slot, write_by_name, read_by_name,
}
use plugmem.Model.Edges.{
  edge_slot, write_edge, read_edge, history_slot, write_history, read_history,
}
use plugmem.Model.Codec.{IsCodec}
use plugmem.Model.FactCodec.{IsFact, IsAux, fact_slot-IsCodec, aux_slot-IsCodec}
use plugmem.Model.EntityCodec.{IsEntity, IsByName, entity_slot-IsCodec, by_name_slot-IsCodec}
use plugmem.Model.EdgeCodec.{IsEdge, IsHistory, edge_slot-IsCodec, history_slot-IsCodec}

-- Every record type of the arenas but the temporal index's, which is a composite key alone: a write overwrites a
-- whole buffer of the slot's size, whatever it held, and a record whose values fit their fields is read back.
pub slots-IsCodec :
    IsCodec fact_slot IsFact write_fact read_fact
    × IsCodec aux_slot IsAux write_aux read_aux
    × IsCodec entity_slot IsEntity write_entity read_entity
    × IsCodec by_name_slot IsByName write_by_name read_by_name
    × IsCodec edge_slot IsEdge write_edge read_edge
    × IsCodec history_slot IsHistory write_history read_history
slots-IsCodec = (
  fact_slot-IsCodec, aux_slot-IsCodec, entity_slot-IsCodec, by_name_slot-IsCodec, edge_slot-IsCodec,
  history_slot-IsCodec,
)
