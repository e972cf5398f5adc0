-- ===== src/Registry/Order.antt =====
-- Taking one entry out of the entries (src/event_socket_set.cpp), and what all of them satisfy.
use libaeon.Prelude.{
  ℕ, zero, suc, ◌≡◌, refl, Bool, true, false, not, ◌&&◌, ◌||◌, Option, none, some, List, [], ◌∷◌,
  ◌==◌, ◌+◌, arith, ==→eq, Bool-cases, inl, inr, length,
}
use libaeon.Registry.{Registration, find, entry_at, points_to, get_if_active, store}

-- The entry is one of the first entries, and the second are the others in their order.
pub data Extracts (entry : Registration) : List Registration → List Registration → Type 0 where
  here : {rest : List Registration} → Extracts entry (entry ∷ rest) rest
  there :
      {x : Registration} {xs ys : List Registration}
      → Extracts entry xs ys
      → Extracts entry (x ∷ xs) (x ∷ ys)

abbrev pub has_token : ℕ → List Registration → Bool
has_token token [] = false
has_token token (x ∷ xs) = x.token == token || has_token token xs

abbrev pub has_socket : ℕ → List Registration → Bool
has_socket socket_ref [] = false
has_socket socket_ref (x ∷ xs) = x.socket_ref == socket_ref || has_socket socket_ref xs

abbrev pub all_active : (ℕ → Bool) → List Registration → Bool
all_active active [] = true
all_active active (x ∷ xs) = active x.token && all_active active xs

-- No token and no socket occurs twice.
abbrev pub all_distinct : List Registration → Bool
all_distinct [] = true
all_distinct (x ∷ xs) =
    not (has_token x.token xs) && not (has_socket x.socket_ref xs) && all_distinct xs

module _ {entry : Registration} where
  pub Extracts-has_token :
      {xs ys : List Registration} (token : ℕ)
      → Extracts entry xs ys
      → has_token token xs ≡ (entry.token == token || has_token token ys)
  Extracts-has_token token here = refl
  Extracts-has_token token (there {x} e) = ground (arith, Extracts-has_token token e)

  pub Extracts-has_socket :
      {xs ys : List Registration} (s : ℕ)
      → Extracts entry xs ys
      → has_socket s xs ≡ (entry.socket_ref == s || has_socket s ys)
  Extracts-has_socket s here = refl
  Extracts-has_socket s (there {x} e) = ground (arith, Extracts-has_socket s e)

  -- What is left is distinct, and has neither the token nor the socket of the entry.
  pub Extracts-distinct :
      {xs ys : List Registration}
      → Extracts entry xs ys
      → all_distinct xs ≡ true
      → (all_distinct ys && not (has_token entry.token ys) && not (has_socket entry.socket_ref ys))
        ≡ true
  Extracts-distinct here d = ground (arith, d)
  Extracts-distinct (there {x} {xs} {ys} e) d = ground (
    arith,
    d,
    Extracts-distinct e,
    Extracts-has_token x.token e,
    Extracts-has_socket x.socket_ref e,
  )

  pub Extracts-active :
      {xs ys : List Registration} (active : ℕ → Bool)
      → Extracts entry xs ys
      → all_active active xs ≡ (active entry.token && all_active active ys)
  Extracts-active active here = refl
  Extracts-active active (there {x} e) = ground (arith, Extracts-active active e)

  pub Extracts-length :
      {xs ys : List Registration} → Extracts entry xs ys → length xs ≡ length ys + 1
  Extracts-length here = omega arith
  Extracts-length (there e) = omega (arith, Extracts-length e)

-- Storing the flag of a token that the entries do not have changes none of theirs.
pub all_active-store :
    (token : ℕ) (flag : Bool) (active : ℕ → Bool) (xs : List Registration)
    → has_token token xs ≡ false
    → all_active (store token flag active) xs ≡ all_active active xs
all_active-store token flag active [] h = refl
all_active-store token flag active (x ∷ xs) h =
    ground (arith, h, all_active-store token flag active xs)

-- What a search has found is one of the entries.
abbrev pub Taken : List Registration → Option (Registration × List Registration) → Type 0
Taken xs none = Unit
Taken xs (some (entry, others)) = Extracts entry xs others

Taken-there :
    (x : Registration) (xs : List Registration) (found : Option (Registration × List Registration))
    → Taken xs found
    → Taken (x ∷ xs) (elim found [ none ↦ none | some (entry, others) ↦ some (entry, x ∷ others) ])
Taken-there x xs none t = tt
Taken-there x xs (some (entry, others)) t = there t

pub entry_at-Taken : (index : ℕ) (xs : List Registration) → Taken xs (entry_at index xs)
unfolding entry_at
entry_at-Taken index [] = tt
entry_at-Taken zero (x ∷ xs) = here
entry_at-Taken (suc index) (x ∷ xs) = Taken-there x xs (entry_at index xs) (entry_at-Taken index xs)

-- What a search for a socket has found: its entry, or that it has none.
abbrev pub Finds : ℕ → List Registration → Option (Registration × List Registration) → Type 0
Finds s xs none = has_socket s xs ≡ false
Finds s xs (some (entry, others)) =
    (has_socket s xs ≡ true) × (entry.socket_ref ≡ s) × Extracts entry xs others

Finds-there :
    (s : ℕ) (x : Registration) (xs : List Registration)
    (found : Option (Registration × List Registration))
    → (x.socket_ref == s) ≡ false
    → Finds s xs found
    → Finds s
        (x ∷ xs)
        (elim found [ none ↦ none | some (entry, others) ↦ some (entry, x ∷ others) ])
Finds-there s x xs none other h = ground (arith, other, h)
Finds-there s x xs (some (entry, others)) other (h, e, rest) = (ground (arith, h), e, there rest)

-- Among active entries the search finds exactly what is there.
pub find-Finds :
    (s : ℕ) (active : ℕ → Bool) (xs : List Registration)
    → all_active active xs ≡ true
    → Finds s xs (find s active xs)
unfolding find
find-Finds s active [] h = refl
find-Finds s active (x ∷ xs) h = elim (Bool-cases (x.socket_ref == s)) [
  | inl hit ↦
      let found : points_to s (get_if_active active x) ≡ true = ground (arith, h, hit) in
      rw (found, find) (ground (arith, hit), ==→eq x.socket_ref s hit, here)
  | inr miss ↦
      let other : points_to s (get_if_active active x) ≡ false = ground (arith, h, miss) in
      rw (other, find)
        (Finds-there s x xs (find s active xs) miss (find-Finds s active xs (ground (arith, h))))
]
