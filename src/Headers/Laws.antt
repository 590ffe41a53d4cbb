-- ===== src/Headers/Laws.antt =====
-- Headers are looked up by key, and the last value for a key wins.
use mathlib.Core.Option
use gokafka.Headers.{no_headers, with_headers, Header}
use gokafka.Prelude.{
  ap, inr, sym, inl, ◌∙◌, refl, Bool-cases, bytes_eq_iff, ◌||◌, arith, true, bytes_eq, [], ◌∷◌,
  if◌then◌else◌, false, ◌≡◌, ◌++◌, some, none, Bool, ℕ, Option, List,
}
use gokafka.Headers.{set_header, emit, add_key, store_headers, store_header, get_header, Merged}

-- GetHeader after SetHeader: the new value for the key that was set, and for every other key what was there.
pub get_header-set_header :
    (key value k : List ℕ) (hs : List Header)
    → get_header k (set_header key value hs)
      ≡ (if bytes_eq key k then some value else get_header k hs)
unfolding get_header set_header
get_header-set_header key value k [] = refl
get_header-set_header key value k (h ∷ hs) = ground (
  arith,
  bytes_eq_iff h.key key,
  bytes_eq_iff h.key k,
  bytes_eq_iff key k,
  get_header-set_header key value k hs,
)

abbrev pub or_else : Option (List ℕ) → Option (List ℕ) → Option (List ℕ)
or_else none o = o
or_else (some v) o = some v

-- The value of the last header with the key.
unfoldable pub last_value : List ℕ → List Header → Option (List ℕ)
last_value k [] = none
last_value k (h ∷ hs) = or_else (last_value k hs) (if bytes_eq h.key k then some h.value else none)

abbrev has : List (List ℕ) → List ℕ → Bool
has [] k = false
has (j ∷ ks) k = let rest = has ks k in if bytes_eq j k then true else rest

abbrev is_some : Option (List ℕ) → Bool
is_some none = false
is_some (some v) = true

has-append : (ks : List (List ℕ)) (j k : List ℕ) → has (ks ++ j ∷ []) k ≡ (has ks k || bytes_eq j k)
has-append [] j k = ground arith
has-append (i ∷ ks) j k = ground (arith, has-append ks j k)

-- The order names the keys that have a value.
IsKnown : Merged → Type 0
IsKnown s = (k : List ℕ) → has s.order k ≡ is_some (s.values k)

new_key :
    (b c : Bool) (v : List ℕ) (o : Option (List ℕ))
    → c ≡ is_some o
    → (c || b) ≡ is_some (if b then some v else o)
new_key true true v o e = refl
new_key true false v o e = refl
new_key false true v o e = e
new_key false false v o e = e

store_header-IsKnown : (s : Merged) (h : Header) → IsKnown s → IsKnown (store_header s h)
unfolding store_header add_key IsKnown
store_header-IsKnown s h known k = add (s.values h.key) refl
  where
    add :
        (o : Option (List ℕ))
        → s.values h.key ≡ o
        → has (add_key o s.order h.key) k
          ≡ is_some (if bytes_eq h.key k then some h.value else s.values k)
    add none e =
        has-append s.order h.key k
        ∙ new_key (bytes_eq h.key k) (has s.order k) h.value (s.values k) (known k)
    add (some v) e = elim (Bool-cases (bytes_eq h.key k)) [
      | inl same ↦
          rw same (known k ∙ ap is_some (ap s.values (sym ((bytes_eq_iff h.key k).0 same)) ∙ e))
      | inr other ↦ rw other (known k)
    ]

store_headers-values :
    (hs : List Header) (s : Merged) (k : List ℕ)
    → (store_headers s hs).values k ≡ or_else (last_value k hs) (s.values k)
unfolding store_headers store_header last_value
store_headers-values [] s k = refl
store_headers-values (h ∷ hs) s k =
    store_headers-values hs (store_header s h) k ∙ rest (last_value k hs) (bytes_eq h.key k)
  where
    rest :
        (o : Option (List ℕ)) (b : Bool)
        → or_else o (if b then some h.value else s.values k)
          ≡ or_else (or_else o (if b then some h.value else none)) (s.values k)
    rest none true = refl
    rest none false = refl
    rest (some v) b = refl

emit-lookup :
    (values : List ℕ → Option (List ℕ)) (order : List (List ℕ)) (k : List ℕ)
    → get_header k (emit values order)
      ≡ (if has order k then some (Option.get_or (values k) []) else none)
unfolding get_header emit
emit-lookup values [] k = refl
emit-lookup values (j ∷ order) k = elim (Bool-cases (bytes_eq j k)) [
  | inl same ↦ rw (same, sym ((bytes_eq_iff j k).0 same)) refl
  | inr other ↦ rw other (emit-lookup values order k)
]

store_headers-IsKnown : (hs : List Header) (s : Merged) → IsKnown s → IsKnown (store_headers s hs)
unfolding store_headers
store_headers-IsKnown [] s known = known
store_headers-IsKnown (h ∷ hs) s known =
    store_headers-IsKnown hs (store_header s h) (store_header-IsKnown s h known)

emit-at :
    (values : List ℕ → Option (List ℕ)) (order : List (List ℕ)) (k : List ℕ)
    → has order k ≡ is_some (values k)
    → get_header k (emit values order) ≡ values k
emit-at values order k known = emit-lookup values order k ∙ rw known (here (values k))
  where
    here : (o : Option (List ℕ)) → (if is_some o then some (Option.get_or o []) else none) ≡ o
    here none = refl
    here (some v) = refl

or_none : (o : Option (List ℕ)) → or_else o none ≡ o
or_none none = refl
or_none (some v) = refl

-- GetHeader on what WithHeaders returns is the last value for the key among the new headers, or else the last
-- one among the record's own, or else absent.
pub get_header-with_headers :
    (k : List ℕ) (own headers : List Header)
    → get_header k (with_headers own headers) ≡ or_else (last_value k headers) (last_value k own)
unfolding with_headers IsKnown
get_header-with_headers k own headers =
    let first : Merged = store_headers no_headers own in
    emit-at (store_headers first headers).values (store_headers first headers).order k
      (store_headers-IsKnown headers first (store_headers-IsKnown own no_headers (λ j. refl)) k)
    ∙ store_headers-values headers first k
    ∙ ap (or_else (last_value k headers))
        (store_headers-values own no_headers k ∙ or_none (last_value k own))
