-- ===== src/Registry/Invariant.antt =====
-- The registry (src/event_socket_set.cpp) as an ordered set of sockets, each with a token of its own.
use libaeon.Prelude.{
  ℕ, ◌≡◌, refl, Bool, true, false, ◌&&◌, ◌||◌, some, List, [], ◌∷◌, ◌++◌, ◌==◌, ltb, arith,
}
use libaeon.Registry.{Registration, Registry, store, append_entry, retire}
use libaeon.Registry.Order.{
  Extracts, has_token, has_socket, all_active, all_distinct, Extracts-distinct, Extracts-active,
  Extracts-has_token, all_active-store,
}

-- Every entry is active, no token or socket stands twice among the entries, a token that none of
-- them has is not active, and the tokens that will be made are new.
pub record IsRegistry (r : Registry) : Type 0 where
  pub listed_active : all_active r.active r.entries ≡ true
  pub distinct : all_distinct r.entries ≡ true
  pub others_revoked : (token : ℕ) → has_token token r.entries ≡ false → r.active token ≡ false
  pub tokens_made : (token : ℕ) → has_token token r.entries ≡ true → ltb token r.next_token ≡ true

has_token-append :
    (token : ℕ) (xs : List Registration) (x : Registration)
    → has_token token (xs ++ x ∷ []) ≡ (has_token token xs || x.token == token)
has_token-append token [] x = ground arith
has_token-append token (y ∷ ys) x = ground (arith, has_token-append token ys x)

has_socket-append :
    (s : ℕ) (xs : List Registration) (x : Registration)
    → has_socket s (xs ++ x ∷ []) ≡ (has_socket s xs || x.socket_ref == s)
has_socket-append s [] x = ground arith
has_socket-append s (y ∷ ys) x = ground (arith, has_socket-append s ys x)

all_active-append :
    (active : ℕ → Bool) (xs : List Registration) (x : Registration)
    → all_active active (xs ++ x ∷ []) ≡ (all_active active xs && active x.token)
all_active-append active [] x = ground arith
all_active-append active (y ∷ ys) x = ground (arith, all_active-append active ys x)

all_distinct-append :
    (xs : List Registration) (x : Registration)
    → all_distinct xs ≡ true
    → has_token x.token xs ≡ false
    → has_socket x.socket_ref xs ≡ false
    → all_distinct (xs ++ x ∷ []) ≡ true
all_distinct-append [] x d h k = refl
all_distinct-append (y ∷ ys) x d h k = ground (
  arith,
  d,
  h,
  k,
  all_distinct-append ys x,
  has_token-append y.token ys x,
  has_socket-append y.socket_ref ys x,
)

pub append_entry-IsRegistry :
    (s : ℕ) (r : Registry)
    → has_socket s r.entries ≡ false
    → IsRegistry r
    → IsRegistry (append_entry s r)
append_entry-IsRegistry s r fresh q = record {
  listed_active = ground (
    arith,
    q.listed_active,
    all_active-append (store r.next_token true r.active) r.entries new,
    all_active-store r.next_token true r.active r.entries unused,
  );
  distinct = all_distinct-append r.entries new q.distinct unused fresh;
  others_revoked =
      λ token h. ground (arith, h, has_token-append token r.entries new, q.others_revoked token);
  tokens_made =
      λ token h. ground (arith, h, has_token-append token r.entries new, q.tokens_made token);
}
  where
    new : Registration
    new = record { token = r.next_token; socket_ref = s }

    unused : has_token r.next_token r.entries ≡ false
    unused = ground (arith, q.tokens_made r.next_token)

-- Retiring an entry: it is inactive and gone, the others stay as they are.
pub retire-IsRegistry :
    (r : Registry) (entry : Registration) (others : List Registration)
    → Extracts entry r.entries others
    → IsRegistry r
    → IsRegistry (retire (some (entry, others)) r).1
retire-IsRegistry r entry others e q = record {
  listed_active = ground (
    arith,
    q.listed_active,
    Extracts-active r.active e,
    all_active-store entry.token false r.active others,
    Extracts-distinct e q.distinct,
  );
  distinct = ground (arith, Extracts-distinct e q.distinct);
  others_revoked = λ token h. ground (arith, h, Extracts-has_token token e, q.others_revoked token);
  tokens_made = λ token h. ground (arith, h, Extracts-has_token token e, q.tokens_made token);
}
