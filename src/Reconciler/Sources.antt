-- ===== src/Reconciler/Sources.antt =====
-- The sources of the reconciler (reconciler/sources.py): what `fetch_state` gives.
use knokeep.Prelude.{Bytes, Dict, List, Option, Text, [], insert, none, some, ◌>>=◌, ◌∷◌}
use knokeep.Types.{Blob}

-- A fetched value: `None`, a `str`, or another object, by its `str()`, where `none` is an exception.
pub data Value : Type 0 where
  none_value : Value
  str_value : Text → Value
  other_value : Option Text → Value

-- What `reconcile` meets at a source: an object without a callable `fetch_state`, or what the call
-- gives.
pub data Fetched : Type 0 where
  not_a_source fetch_raised not_a_dict : Fetched
  fetched : Dict Value → Fetched

-- The decoding of bytes with `errors="replace"` is a parameter.
module _ (decode : Bytes → Text) where
  unfoldable pub store_value :
      Text → Option (Option Blob) → Option (Dict Value) → Option (Dict Value)
  store_value key none later = none
  store_value key (some none) later = later
  store_value key (some (some blob)) later =
      later >>= (λ d. some (insert key (str_value (decode blob.body)) d))

  -- `StoreSource.fetch_state`, where `none` is an exception of the backend. The keys are set from the
  -- last to the first: a key that is given twice is read twice and shows the same value.
  unfoldable pub store_state : (Text → Option (Option Blob)) → List Text → Option (Dict Value)
  unfolding store_value
  store_state read [] = some []
  store_state read (key ∷ keys) = store_value key (read key) (store_state read keys)

-- `FilesSource.fetch_state`: `none` is an `OSError`, and the file is left out.
unfoldable pub files_state : (Text → Option Text) → List Text → Dict Value
files_state read_text [] = []
files_state read_text (name ∷ names) =
    let rest = files_state read_text names in
    elim (read_text name) [ none ↦ rest | some text ↦ insert name (str_value text) rest ]
