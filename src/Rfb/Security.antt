-- ===== src/Rfb/Security.antt =====
-- Which security type the client of statics/include/rfb.js takes of those that the server offers.
use routercenter_old.Prelude.{
  ℕ, ◌≡◌, ◌≤◌, refl, Bool, true, false, ◌&&◌, ◌||◌, Option, none, some, List, [], ◌∷◌, leb, ltb,
  ◌==◌, ◌⊎◌, inl, inr, Bool-cases, if◌then◌else◌, arith,
}
use routercenter_old.Rfb.Words.{choose_type}

-- The types that the client may take.
abbrev pub acceptable : ℕ → Bool
acceptable t = leb t 16 || t == 22

unfoldable pub offered : ℕ → List (Option ℕ) → Bool
offered t [] = false
offered t (none ∷ types) = offered t types
offered t (some u ∷ types) = u == t || offered t types

choose_type_grows : (scheme : ℕ) (types : List (Option ℕ)) → scheme ≤ choose_type scheme types
unfolding choose_type
choose_type_grows scheme [] = omega arith
choose_type_grows scheme (none ∷ types) = choose_type_grows scheme types
choose_type_grows scheme (some t ∷ types) =
    let k = choose_type_grows (if ltb scheme t && acceptable t then t else scheme) types in
    ground (arith, k)

choose_type_bounds :
    (scheme t : ℕ) (types : List (Option ℕ))
    → offered t types ≡ true
    → acceptable t ≡ true
    → t ≤ choose_type scheme types
unfolding choose_type offered
choose_type_bounds scheme t [] o a = absurd (ground (arith, o))
choose_type_bounds scheme t (none ∷ types) o a = choose_type_bounds scheme t types o a
choose_type_bounds scheme t (some u ∷ types) o a =
    let next = if ltb scheme u && acceptable u then u else scheme in
    elim (Bool-cases (u == t)) as (λ _. t ≤ choose_type next types) [
      | inl e ↦ let k = choose_type_grows next types in ground (arith, k, a, e)
      | inr e ↦ choose_type_bounds next t types (ground (arith, e, o)) a
    ]

from_next :
    (scheme u : ℕ) (types : List (Option ℕ)) (c : ℕ)
    → (c ≡ (if ltb scheme u && acceptable u then u else scheme))
      ⊎ ((offered c types ≡ true) × (acceptable c ≡ true))
    → (c ≡ scheme) ⊎ ((offered c (some u ∷ types) ≡ true) × (acceptable c ≡ true))
unfolding offered
from_next scheme u types c (inl e) = elim (Bool-cases (ltb scheme u && acceptable u)) [
  | inl t ↦ inr (ground (arith, e, t), ground (arith, e, t))
  | inr f ↦ inl (ground (arith, e, f))
]
from_next scheme u types c (inr (o, a)) = inr (ground (arith, o), a)

choose_type_from :
    (scheme : ℕ) (types : List (Option ℕ))
    → (choose_type scheme types ≡ scheme)
      ⊎ ((offered (choose_type scheme types) types ≡ true)
          × (acceptable (choose_type scheme types) ≡ true))
unfolding choose_type offered
choose_type_from scheme [] = inl refl
choose_type_from scheme (none ∷ types) = choose_type_from scheme types
choose_type_from scheme (some u ∷ types) =
    let next = if ltb scheme u && acceptable u then u else scheme in
    from_next scheme u types (choose_type next types) (choose_type_from next types)

-- Of the security types that a server offers the client takes the greatest of those up to 16 and 22: it
-- takes 0 if there is none, and else one of them, which none of them exceeds.
pub choose_type_greatest :
    (types : List (Option ℕ))
    → ((choose_type 0 types ≡ 0)
        ⊎ ((offered (choose_type 0 types) types ≡ true)
            × (acceptable (choose_type 0 types) ≡ true)))
      × ((t : ℕ) → offered t types ≡ true → acceptable t ≡ true → t ≤ choose_type 0 types)
choose_type_greatest types = (choose_type_from 0 types, λ t. choose_type_bounds 0 t types)
