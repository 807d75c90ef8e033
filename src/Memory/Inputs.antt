-- ===== src/Memory/Inputs.antt =====
-- The inputs of the verbs, their validation, and the vector space that a database is bound to.
use plugmem.Base.{
  ℕ, List, [], ◌∷◌, length, Option, none, some, Bool, true, false, not, ◌&&◌, ◌||◌, ltb, ◌==◌,
}
use plugmem.Base.{if◌then◌else◌, Result, ok, err}
use plugmem.Base.Bytes.{Bytes}
use plugmem.Base.Order.{cmp_bytes}
use plugmem.Errors.{Error}
use plugmem.Memory.{Stores, Memory, Act, done, ◌>>=◌, give, attempt}
use Prim.Native.Nat.{Ordering}

abbrev pub max_tags : ℕ
max_tags = 32

abbrev pub max_links : ℕ
max_links = 16

abbrev pub max_vector_space_id_bytes : ℕ
max_vector_space_id_bytes = 256

-- A vector is the bit patterns of its numbers.
pub record RememberInput : Type 0 where
  pub now : ℕ
  pub text : Bytes
  pub entity : Option Bytes
  pub tags : List Bytes
  pub links : List (Bytes × Bytes)
  pub vector : Option (List ℕ)
  pub valid_from : Option ℕ
  pub metadata : Option (List (Bytes × Bytes))

pub record RememberOutcome : Type 0 where
  pub id : ℕ
  pub entity : Option ℕ

-- `is_empty` of a slice.
abbrev pub is_nil {ℓ} : {A : Type ℓ} → List A → Bool
is_nil [] = true
is_nil (x ∷ xs) = false

abbrev pub is_some {ℓ} : {A : Type ℓ} → Option A → Bool
is_some none = false
is_some (some a) = true

unfoldable pub any_nil : List Bytes → Bool
any_nil [] = false
any_nil (t ∷ ts) = if is_nil t then true else any_nil ts

unfoldable pub same_text : Bytes → Bytes → Bool
same_text a b = elim (cmp_bytes a b) [
  | Ordering.lt ↦ false
  | Ordering.eq ↦ true
  | Ordering.gt ↦ false
]

-- `option.unwrap_or(default)`
abbrev pub unwrap_or {ℓ} : {A : Type ℓ} → Option A → A → A
unwrap_or none d = d
unwrap_or (some a) d = a

unfoldable pub check_vector : ℕ → Option (List ℕ) → Result Error Unit
check_vector dim none = ok tt
check_vector dim (some v) =
    if dim == 0
    then err (Error.invalid "vector given but dim is 0")
    else if not (length v == dim)
    then err (Error.dim_mismatch (length v) dim)
    else ok tt

unfoldable pub validate : ℕ → ℕ → RememberInput → Result Error Unit
validate max_text dim input =
    if ltb max_text (length input.text)
    then err (Error.too_large "text" (length input.text) max_text)
    else if ltb max_tags (length input.tags)
    then err (Error.too_large "tags" (length input.tags) max_tags)
    else if ltb max_links (length input.links)
    then err (Error.too_large "links" (length input.links) max_links)
    else if any_nil input.tags
    then err (Error.invalid "empty tag")
    else if not (is_nil input.links) && not (is_some input.entity)
    then err (Error.invalid "links require a subject entity")
    else check_vector dim input.vector

-- `b < b' ' || b == 0x7f`
unfoldable pub any_control : Bytes → Bool
any_control [] = false
any_control (b ∷ bs) = if ltb b 32 || (b == 127) then true else any_control bs

unfoldable pub validate_vector_space : Bytes → Result Error Unit
validate_vector_space space =
    if is_nil space
    then err (Error.invalid "vector space must not be empty")
    else if ltb max_vector_space_id_bytes (length space)
    then err (Error.too_large "vector space" (length space) max_vector_space_id_bytes)
    else if any_control space
    then err (Error.invalid "vector space must not contain control bytes")
    else ok tt

module _ (P : Stores) where
  unfoldable pub validate_input : RememberInput → Act (Memory P) Unit
  validate_input input m = attempt (validate m.cfg.max_text m.cfg.dim input) m

  -- Whether the space has to be claimed.
  unfoldable pub check_claim : Bytes → Option Bytes → Bool → Result Error Bool
  check_claim space none empty = if not empty then err Error.untracked_vector_space else ok true
  check_claim space (some stored) empty =
      if same_text stored space
      then ok false
      else if not empty
      then err (Error.vector_space_mismatch stored space)
      else ok true

  unfoldable pub check_vector_space_claim : Bytes → Act (Memory P) Bool
  check_vector_space_claim space m =
      (attempt (validate_vector_space space) >>= λ u.
      attempt (check_claim space m.vector_space (P.no_vectors m.vecs)))
        m

  unfoldable pub check_set : Bytes → Option Bytes → Bool → Result Error Bool
  check_set space none empty =
      if not empty
      then err (Error.corrupt "journal assigns a vector space after vector records")
      else ok true
  check_set space (some stored) empty =
      if same_text stored space
      then ok false
      else if not empty
      then err (Error.corrupt "journal changes an established vector space")
      else ok true

  unfoldable pub set_vector_space : Bytes → Act (Memory P) Unit
  set_vector_space space m = (record m { vector_space = some space }, done tt)

  unfoldable pub apply_set_vector_space : Bytes → Act (Memory P) Unit
  apply_set_vector_space space m =
      (attempt (validate_vector_space space) >>= λ u.
      attempt (check_set space m.vector_space (P.no_vectors m.vecs)) >>= λ changes.
      if changes then set_vector_space space else give tt)
        m
