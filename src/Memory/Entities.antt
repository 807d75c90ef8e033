-- ===== src/Memory/Entities.antt =====
-- Names of entities: normalised, looked up, and created on first use.
use plugmem.Base.{
  ℕ, ◌+◌, ◌-◌, ◌%◌, ◌^◌, List, [], ◌∷◌, ◌++◌, Option, none, some, Bool, if◌then◌else◌,
}
use plugmem.Base.{Result, ok, err}
use plugmem.Base.Bytes.{Bytes, to_be}
use plugmem.Errors.{Error, ArenaError}
use plugmem.Blob.{push}
use plugmem.Memory.{Stores, Memory, Act, done, failed, ◌>>=◌, give, attempt, of_arena}
use plugmem.Memory.Inputs.{is_nil}
use mathlib.Core.Option

-- Tokens, joined by spaces.
unfoldable pub join : List Bytes → Bytes → Bytes
join [] out = out
join (t ∷ ts) out = join ts (if is_nil out then t else out ++ (32 ∷ t))

module _ (P : Stores) where
  unfoldable pub normalize_name : Bytes → Bytes
  normalize_name name = join (P.tokens name) []

  unfoldable pub lookup_entity_by_norm : Memory P → Bytes → Option ℕ
  lookup_entity_by_norm m norm = Option.bind (P.lookup norm m.terms) λ term.
      Option.map (λ e. e.id)
        (P.by_name.first_in (to_be 4 term ++ to_be 4 0) (to_be 4 term ++ to_be 4 (2 ^ 32 - 1))
          m.by_name)

  unfoldable pub lookup_entity_name : Memory P → Bytes → Option ℕ
  lookup_entity_name m name =
      let norm : Bytes = normalize_name name in
      if is_nil norm then none else lookup_entity_by_norm m norm

  unfoldable pub intern_term : Bytes → Act (Memory P) ℕ
  intern_term text m =
      let made : P.Terms × Result ArenaError ℕ = P.intern text m.terms in
      attempt (of_arena made.1) (record m { terms = made.0 })

  unfoldable pub push_text : Bytes → Act (Memory P) ℕ
  push_text text m = elim (push m.texts text) [
    | err e ↦ (m, failed (Error.arena e))
    | ok pushed ↦ (record m { texts = pushed.1 }, done pushed.0)
  ]

  unfoldable pub insert_entity : ℕ → ℕ → ℕ → ℕ → Act (Memory P) Bool
  insert_entity id name_id term now m =
      let made =
        P.entities.insert
          (record { id = id; name = name_id; name_term = term; created_at = now; flags = 0 })
          m.entities in
      attempt (of_arena made.1) (record m { entities = made.0 })

  unfoldable pub insert_name : ℕ → ℕ → Act (Memory P) Bool
  insert_name term id m =
      let made = P.by_name.insert (record { name_term = term; id = id }) m.by_name in
      attempt (of_arena made.1) (record m { by_name = made.0 })

  unfoldable pub take_entity_id : Act (Memory P) Unit
  take_entity_id m = (record m { next_entity = (m.next_entity + 1) % 2 ^ 32 }, done tt)

  unfoldable pub create_entity : Bytes → Bytes → ℕ → Act (Memory P) ℕ
  create_entity name norm now = do
    term ← intern_term norm
    id ← (λ m. (m, done m.next_entity))
    name_id ← push_text name
    fresh ← insert_entity id name_id term now
    named ← insert_name term id
    u ← take_entity_id
    give id

  unfoldable pub resolve_or_create_entity : Bytes → ℕ → Act (Memory P) ℕ
  resolve_or_create_entity name now m =
      let norm : Bytes = normalize_name name in
      if is_nil norm
      then (m, failed (Error.invalid "entity name has no indexable characters"))
      else elim (lookup_entity_by_norm m norm) [
        | some found ↦ (m, done found)
        | none ↦ create_entity name norm now m
      ]
