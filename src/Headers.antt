-- ===== src/Headers.antt =====
-- record_headers.go: the headers of a record.
use gokafka.Prelude.{◌++◌, some, ◌∷◌, ℕ, bytes_eq, [], none, if◌then◌else◌, Option, List}
pub mod Laws
use mathlib.Core.Option

pub record Header : Type 0 where
  pub key : List ℕ
  pub value : List ℕ

unfoldable pub set_header : List ℕ → List ℕ → List Header → List Header
set_header key value [] = record { key = key; value = value } ∷ []
set_header key value (h ∷ hs) =
    let rest = set_header key value hs in
    if bytes_eq h.key key then record h { value = value } ∷ hs else h ∷ rest

unfoldable pub get_header : List ℕ → List Header → Option (List ℕ)
get_header key [] = none
get_header key (h ∷ hs) =
    let rest = get_header key hs in if bytes_eq h.key key then some h.value else rest

-- The map m and the slice order of WithHeaders.
pub record Merged : Type 0 where
  pub values : List ℕ → Option (List ℕ)
  pub order : List (List ℕ)

-- if _, ok := m[h.Key]; !ok { order = append(order, h.Key) }
unfoldable pub add_key : Option (List ℕ) → List (List ℕ) → List ℕ → List (List ℕ)
add_key none order key = order ++ key ∷ []
add_key (some value) order key = order

unfoldable pub store_header : Merged → Header → Merged
unfolding add_key
store_header s h = record {
  values = λ k. if bytes_eq h.key k then some h.value else s.values k;
  order = add_key (s.values h.key) s.order h.key;
}

unfoldable pub store_headers : Merged → List Header → Merged
unfolding store_header
store_headers s [] = s
store_headers s (h ∷ hs) = store_headers (store_header s h) hs

-- A missing key reads as nil.
unfoldable pub emit : (List ℕ → Option (List ℕ)) → List (List ℕ) → List Header
emit values [] = []
emit values (k ∷ order) =
    record { key = k; value = Option.get_or (values k) [] } ∷ emit values order

abbrev pub no_headers : Merged
no_headers = record { values = λ k. none; order = [] }

unfoldable pub with_headers : List Header → List Header → List Header
unfolding store_headers emit
with_headers own headers =
    let s = store_headers (store_headers no_headers own) headers in emit s.values s.order
