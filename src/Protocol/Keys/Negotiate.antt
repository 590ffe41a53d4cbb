-- ===== src/Protocol/Keys/Negotiate.antt =====
-- NegotiateVersion of internal/protocol/api_versions.go.
use gokafka.Prelude.{
  inr, ◌⊎◌, inl, arith, Bool-cases, true, false, ◌≡◌, List, [], ◌∷◌, if◌then◌else◌,
}
use gokafka.Prelude.Int.{negsuc, ◌≤ℤ◌, ℤ, pos, ltb_ℤ, leb_ℤ, eqb_ℤ}

-- A broker's version range for one API.
pub record ApiVersion : Type 0 where
  pub api_key : ℤ
  pub min_version : ℤ
  pub max_version : ℤ

unfoldable pub negotiate_version : List ApiVersion → ℤ → ℤ → ℤ
negotiate_version [] api_key client_max = if leb_ℤ client_max (pos 0) then pos 0 else client_max
negotiate_version (v ∷ vs) api_key client_max =
    let rest = negotiate_version vs api_key client_max in
    if leb_ℤ client_max (pos 0)
    then pos 0
    else if eqb_ℤ v.api_key api_key
    then (if ltb_ℤ client_max v.min_version
        then pos 0
        else if ltb_ℤ v.max_version client_max
        then v.max_version
        else client_max)
    else rest

-- The range lo..hi is the one that the broker lists first for the key.
abbrev pub Listed : ℤ → ℤ → ℤ → List ApiVersion → Type 0
Listed key lo hi [] = ⊥
Listed key lo hi (v ∷ vs) =
    ((eqb_ℤ v.api_key key ≡ true) × (v.min_version ≡ lo) × (v.max_version ≡ hi))
    ⊎ ((eqb_ℤ v.api_key key ≡ false) × Listed key lo hi vs)

abbrev pub NotListed : ℤ → List ApiVersion → Type 0
NotListed key [] = Unit
NotListed key (v ∷ vs) = (eqb_ℤ v.api_key key ≡ false) × NotListed key vs

-- `r` is 0 where the cap is below the range, and else the highest version of the range under the cap.
abbrev pub IsHighest : ℤ → ℤ → ℤ → ℤ → Type 0
IsHighest lo hi client_max r =
    ((ltb_ℤ client_max lo ≡ true) × (r ≡ pos 0))
    ⊎ ((lo ≤ℤ r) × (r ≤ℤ hi) × (r ≤ℤ client_max) × ((u : ℤ) → u ≤ℤ hi → u ≤ℤ client_max → u ≤ℤ r))

pub NotListed-negotiate_version :
    (vs : List ApiVersion) (key client_max : ℤ)
    → pos 1 ≤ℤ client_max
    → NotListed key vs
    → negotiate_version vs key client_max ≡ client_max
unfolding negotiate_version
NotListed-negotiate_version [] key client_max h n = ground arith
NotListed-negotiate_version (v ∷ vs) key client_max h n =
    ground (arith, NotListed-negotiate_version vs key client_max)

not_below : (c : ℤ) → pos 1 ≤ℤ c → leb_ℤ c (pos 0) ≡ false
not_below (pos n) h = ground arith
not_below (negsuc n) h = ground arith

-- The range has been found.
pick :
    (lo hi c : ℤ)
    → pos 1 ≤ℤ c
    → lo ≤ℤ hi
    → IsHighest lo hi c (
        if leb_ℤ c (pos 0)
        then pos 0
        else if true
        then (if ltb_ℤ c lo then pos 0 else if ltb_ℤ hi c then hi else c)
        else pos 0)
pick lo hi c h le = elim (Bool-cases (ltb_ℤ c lo)) [
  | inl low ↦ inl (low, rw (not_below c h, low))
  | inr reach ↦ elim (Bool-cases (ltb_ℤ hi c)) [
    | inl above ↦
        rw (not_below c h, reach, above) (inr (le, ground arith, ground arith, λ u p q. p))
    | inr within ↦
        rw (not_below c h, reach, within)
          (inr (ground arith, ground arith, ground arith, λ u p q. q))
  ]
]

-- For a positive client cap and a broker range lo..hi that the cap reaches, the negotiated version
-- lies in the range, is at most the cap, and is the highest such version. A cap below the range
-- gives 0, and an API that the broker does not list gives the cap.
pub negotiate_version-IsHighest :
    (vs : List ApiVersion) (key lo hi client_max : ℤ)
    → pos 1 ≤ℤ client_max
    → lo ≤ℤ hi
    → Listed key lo hi vs
    → IsHighest lo hi client_max (negotiate_version vs key client_max)
unfolding negotiate_version
negotiate_version-IsHighest [] key lo hi client_max h le l = absurd l
negotiate_version-IsHighest (v ∷ vs) key lo hi client_max h le (inl (e, p, q)) =
    rw (e, p, q) (pick lo hi client_max h le)
negotiate_version-IsHighest (v ∷ vs) key lo hi client_max h le (inr (e, l)) =
    rw (not_below client_max h, e) (negotiate_version-IsHighest vs key lo hi client_max h le l)
