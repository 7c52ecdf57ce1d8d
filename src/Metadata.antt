-- ===== src/Metadata.antt =====
-- grpc_metadata and grpc_metadata_array (include/grpc/grpc.h) and their operations
-- (src/enhanced_features.c). The array is the list of its `count` entries with its capacity, and
-- says whether its pointer is NULL, owns a block, or was freed. A NULL argument is `none`.
pub mod Laws
mod Tests
use grpc_c.Common.{
  ℕ, ◌+◌, ◌*◌, Bool, Option, none, some, List, [], ◌∷◌, ◌++◌, length, take, ltb, leb, if◌then◌else◌,
  map,
}
use grpc_c.Common.Memory.{Alloc, c_string}
use grpc_c.Common.Fallible.{Status, success, failure}
use grpc_c.Transport.{Run, returns, fault}

pub record Metadata : Type 0 where
  pub key : Option (List ℕ)
  pub value : Option (List ℕ)
  pub value_length : ℕ

pub data Storage : Type 0 where
  null live freed : Storage

pub record MetadataArray : Type 0 where
  pub metadata : List Metadata
  pub capacity : ℕ
  pub storage : Storage

abbrev pub count : MetadataArray → ℕ
count a = length a.metadata

abbrev pub entry : List ℕ → List ℕ → ℕ → Metadata
entry key value n = record { key = some key; value = some value; value_length = n }

-- The array calloc'ed with `cap` entries, if the request succeeds.
unfoldable pub fresh : Bool → ℕ → MetadataArray
fresh ok cap = record { metadata = []; capacity = cap; storage = if ok then live else null }

abbrev pub default_capacity : ℕ
default_capacity = 16

-- grpc_metadata_array_init
unfoldable pub init : Bool → ℕ → MetadataArray × Status
unfolding fresh
init ok initial_capacity = (
  fresh ok (if ltb 0 initial_capacity then initial_capacity else default_capacity),
  if ok then success else failure,
)

unfoldable pub is_full : MetadataArray → Bool
is_full a = leb a.capacity (count a)

-- The realloc to twice the capacity when the array is full; `none` if it fails.
unfoldable pub grow : Bool → MetadataArray → Option MetadataArray
unfolding is_full
grow ok a =
    if is_full a
    then (if ok then some (record a { capacity = a.capacity * 2; storage = live }) else none)
    else some a

unfoldable pub push : MetadataArray → Metadata → MetadataArray
push a md = record a { metadata = a.metadata ++ md ∷ [] }

-- The copies of key and value; `copied` and `copied'` are the results of strdup and malloc. The
-- value is the whole block behind its pointer, and memcpy may not read past it.
add_copies : Bool → Bool → MetadataArray → List ℕ → List ℕ → ℕ → Run (MetadataArray × Status)
unfolding push
add_copies copied copied' a key value n =
    if copied
    then (if copied'
        then (if leb n (length value)
            then returns (push a (entry (c_string key) (take n value) n), success)
            else fault)
        else returns (a, failure))
    else returns (a, failure)

add_grown :
    Alloc
    → ℕ
    → MetadataArray
    → Option MetadataArray
    → List ℕ
    → List ℕ
    → ℕ
    → Run (MetadataArray × Status)
unfolding add_copies
add_grown alloc k a none key value n = returns (a, failure)
add_grown alloc k a (some a') key value n = add_copies (alloc k) (alloc (k + 1)) a' key value n

-- grpc_metadata_array_add; its heap requests are numbered from `k` on.
pub add :
    Alloc → ℕ → MetadataArray → Option (List ℕ) → Option (List ℕ) → ℕ → Run (MetadataArray × Status)
unfolding add_grown grow
add alloc k a none value n = returns (a, failure)
add alloc k a (some key) none n = returns (a, failure)
add alloc k a (some key) (some value) n =
    let next = if is_full a then k + 1 else k in
    add_grown alloc next a (grow (alloc k) a) key value n

abbrev emptied : MetadataArray
emptied = record { metadata = []; capacity = 0; storage = null }

-- grpc_metadata_array_destroy; `none` if it frees blocks that were freed before.
unfoldable pub destroy : MetadataArray → Option MetadataArray
destroy a = elim a.storage [ null ↦ some a | live ↦ some emptied | freed ↦ none ]
