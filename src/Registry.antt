-- ===== src/Registry.antt =====
-- The registrations of event_socket_set (src/event_socket_set.cpp, basic_socket_registration and
-- basic_socket_registry). A registration is a token that a poller may still hold after the socket
-- was removed: whether it is active is a flag of the token, which outlives its place among the
-- entries. A socket is known by its identity; a null pointer is `none`.
pub mod Order
pub mod Invariant
pub mod Refines
pub mod Revoked
pub mod Members
use libaeon.Prelude.{
  ℕ, zero, suc, ◌+◌, Bool, true, false, not, ◌&&◌, Option, none, some, List, [], ◌∷◌, ◌++◌, ◌==◌,
  if◌then◌else◌, length, leb,
}

pub record Registration : Type 0 where
  pub token : ℕ
  pub socket_ref : ℕ

-- The entries in their order, the flag of every token, and the token that is made next.
pub record Registry : Type 0 where
  pub entries : List Registration
  pub active : ℕ → Bool
  pub next_token : ℕ

abbrev pub no_registrations : Registry
no_registrations = record { entries = []; active = λ _. false; next_token = 0 }

abbrev pub get_if_active : (ℕ → Bool) → Registration → Option ℕ
get_if_active active entry = if active entry.token then some entry.socket_ref else none

-- `active_.store(flag)` of one token
abbrev pub store : ℕ → Bool → (ℕ → Bool) → ℕ → Bool
store token flag active k = if k == token then flag else active k

abbrev pub points_to : ℕ → Option ℕ → Bool
points_to socket_ref none = false
points_to socket_ref (some s) = s == socket_ref

-- `find`, with the entries that stay when what it finds is erased
unfoldable pub find : ℕ → (ℕ → Bool) → List Registration → Option (Registration × List Registration)
find socket_ref active [] = none
find socket_ref active (entry ∷ rest) =
    if points_to socket_ref (get_if_active active entry)
    then some (entry, rest)
    else elim (find socket_ref active rest) [
      | none ↦ none
      | some (found, others) ↦ some (found, entry ∷ others)
    ]

-- `entries_[index]`, with the entries that stay when it is erased
unfoldable pub entry_at : ℕ → List Registration → Option (Registration × List Registration)
entry_at index [] = none
entry_at zero (entry ∷ rest) = some (entry, rest)
entry_at (suc index) (entry ∷ rest) = elim (entry_at index rest) [
  | none ↦ none
  | some (found, others) ↦ some (found, entry ∷ others)
]

abbrev pub is_found : Option (Registration × List Registration) → Bool
is_found none = false
is_found (some _) = true

abbrev pub append_entry : ℕ → Registry → Registry
append_entry socket_ref r = record {
  entries = r.entries ++ record { token = r.next_token; socket_ref = socket_ref } ∷ [];
  active = store r.next_token true r.active;
  next_token = r.next_token + 1;
}

unfoldable pub add : Option ℕ → Registry → Bool × Registry
add none r = (false, r)
add (some socket_ref) r =
    if is_found (find socket_ref r.active r.entries)
    then (false, r)
    else (true, append_entry socket_ref r)

-- `deactivate()` and `erase` of what was found
abbrev pub retire : Option (Registration × List Registration) → Registry → Bool × Registry
retire none r = (false, r)
retire (some (entry, others)) r =
    (true, record r { entries = others; active = store entry.token false r.active })

unfoldable pub remove_index : ℕ → Registry → Bool × Registry
remove_index index r = retire (entry_at index r.entries) r

unfoldable pub remove_socket : Option ℕ → Registry → Bool × Registry
remove_socket none r = (false, r)
remove_socket (some socket_ref) r = retire (find socket_ref r.active r.entries) r

abbrev pub size : Registry → ℕ
size r = length r.entries

abbrev pub snapshot : Registry → List Registration
snapshot r = r.entries

abbrev pub deactivate_all : List Registration → (ℕ → Bool) → ℕ → Bool
deactivate_all [] active = active
deactivate_all (entry ∷ rest) active = deactivate_all rest (store entry.token false active)

unfoldable pub clear : Registry → Registry
clear r = record r { entries = []; active = deactivate_all r.entries r.active }
