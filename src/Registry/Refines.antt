-- ===== src/Registry/Refines.antt =====
-- The registry (src/event_socket_set.cpp) implements an ordered set of sockets.
use libaeon.Prelude.{
  ℕ, zero, suc, ◌≡◌, refl, sym, ap, ◌∙◌, Bool, true, false, not, ◌&&◌, Option, none, some, List, [],
  ◌∷◌, ◌++◌, ◌==◌, ltb, arith, Bool-cases, inl, inr, length, if◌then◌else◌,
}
use libaeon.SocketSet.{erase}
use libaeon.PeerCollection.{contains, erase_first}
use libaeon.Registry.{
  Registration, Registry, find, entry_at, retire, is_found, add, remove_index, remove_socket, clear,
  deactivate_all, store,
}
use libaeon.Registry.Order.{
  Extracts, here, there, Taken, Finds, has_token, has_socket, all_distinct, entry_at-Taken,
  find-Finds,
}
use libaeon.Registry.Invariant.{IsRegistry, append_entry-IsRegistry, retire-IsRegistry}

abbrev pub sockets_of : List Registration → List ℕ
sockets_of [] = []
sockets_of (x ∷ xs) = x.socket_ref ∷ sockets_of xs

-- What a caller may do to the set.
pub data Operation : Type 0 where
  adds : ℕ → Operation
  removes : ℕ → Operation
  removes_at : ℕ → Operation
  clears : Operation

abbrev pub run : Operation → Registry → Bool × Registry
run (Operation.adds s) r = add (some s) r
run (Operation.removes s) r = remove_socket (some s) r
run (Operation.removes_at index) r = remove_index index r
run Operation.clears r = (true, clear r)

-- What it means for the sockets that are registered.
abbrev pub run_on_sockets : Operation → List ℕ → Bool × List ℕ
run_on_sockets (Operation.adds s) xs = if contains s xs then (false, xs) else (true, xs ++ s ∷ [])
run_on_sockets (Operation.removes s) xs = (contains s xs, erase_first s xs)
run_on_sockets (Operation.removes_at index) xs = (ltb index (length xs), erase index 1 xs)
run_on_sockets Operation.clears xs = (true, [])

has_socket-contains :
    (s : ℕ) (xs : List Registration) → has_socket s xs ≡ contains s (sockets_of xs)
has_socket-contains s [] = refl
has_socket-contains s (x ∷ xs) = ground (arith, has_socket-contains s xs)

sockets_of-append :
    (xs : List Registration) (x : Registration)
    → sockets_of (xs ++ x ∷ []) ≡ sockets_of xs ++ x.socket_ref ∷ []
sockets_of-append [] x = refl
sockets_of-append (y ∷ ys) x = ap (λ l. y.socket_ref ∷ l) (sockets_of-append ys x)

pub contains-Extracts :
    {entry : Registration} {xs ys : List Registration}
    → Extracts entry xs ys
    → has_socket entry.socket_ref xs ≡ true
contains-Extracts here = ground arith
contains-Extracts (there e) = ground (arith, contains-Extracts e)

sockets_of-Extracts :
    {entry : Registration} {xs ys : List Registration}
    → Extracts entry xs ys
    → all_distinct xs ≡ true
    → sockets_of ys ≡ erase_first entry.socket_ref (sockets_of xs)
sockets_of-Extracts here d = ground arith
sockets_of-Extracts {entry} (there {x} {xs} e) d =
    elim (Bool-cases (x.socket_ref == entry.socket_ref)) [
      | inl same ↦ absurd (ground (arith, same, d, contains-Extracts e))
      | inr other ↦
          rw other (ap (λ l. x.socket_ref ∷ l) (sockets_of-Extracts e (ground (arith, d))))
    ]

erase_first-absent : (s : ℕ) (xs : List ℕ) → contains s xs ≡ false → erase_first s xs ≡ xs
erase_first-absent s [] h = refl
erase_first-absent s (x ∷ xs) h = ground (arith, h, erase_first-absent s xs)

-- What `entry_at` finds, by its index.
abbrev At : ℕ → List Registration → Option (Registration × List Registration) → Type 0
At index xs none = (ltb index (length xs) ≡ false) × (erase index 1 (sockets_of xs) ≡ sockets_of xs)
At index xs (some (entry, others)) =
    (ltb index (length xs) ≡ true) × (sockets_of others ≡ erase index 1 (sockets_of xs))

At-suc :
    (index : ℕ) (x : Registration) (xs : List Registration)
    (found : Option (Registration × List Registration))
    → At index xs found
    → At
        (suc index)
        (x ∷ xs)
        (elim found [ none ↦ none | some (entry, others) ↦ some (entry, x ∷ others) ])
At-suc index x xs none h = (ground (arith, h), ap (λ l. x.socket_ref ∷ l) h.1)
At-suc index x xs (some (entry, others)) h = (ground (arith, h), ap (λ l. x.socket_ref ∷ l) h.1)

erase_nil : (index : ℕ) → erase index 1 [] ≡ []
erase_nil zero = refl
erase_nil (suc index) = refl

entry_at-At : (index : ℕ) (xs : List Registration) → At index xs (entry_at index xs)
unfolding entry_at
entry_at-At index [] = (ground arith, erase_nil index)
entry_at-At zero (x ∷ xs) = (ground arith, refl)
entry_at-At (suc index) (x ∷ xs) = At-suc index x xs (entry_at index xs) (entry_at-At index xs)

pub deactivate_all_lem :
    (xs : List Registration) (active : ℕ → Bool) (token : ℕ)
    → deactivate_all xs active token ≡ (not (has_token token xs) && active token)
deactivate_all_lem [] active token = refl
deactivate_all_lem (x ∷ xs) active token =
    ground (arith, deactivate_all_lem xs (store x.token false active) token)

clear-IsRegistry : (r : Registry) → IsRegistry r → IsRegistry (clear r)
unfolding clear
clear-IsRegistry r q = record {
  listed_active = refl;
  distinct = refl;
  others_revoked = λ token h.
      ground (arith, deactivate_all_lem r.entries r.active token, q.others_revoked token);
  tokens_made = λ token h. cc;
}

-- One operation on a registry against the same on its list of sockets.
abbrev pub Refines : Operation → Registry → Type 0
Refines op r =
    IsRegistry (run op r).1
    × ((run op r).0 ≡ (run_on_sockets op (sockets_of r.entries)).0)
    × (sockets_of (run op r).1.entries ≡ (run_on_sockets op (sockets_of r.entries)).1)

add-Refines : (s : ℕ) (r : Registry) → IsRegistry r → Refines (Operation.adds s) r
unfolding add
add-Refines s r q =
    let known : is_found (find s r.active r.entries) ≡ has_socket s r.entries =
      Finds-is_found s r.entries (find s r.active r.entries)
        (find-Finds s r.active r.entries q.listed_active) in
    let same = has_socket-contains s r.entries in
    elim (Bool-cases (contains s (sockets_of r.entries))) [
      | inl old ↦ let found = known ∙ same ∙ old in rw (found, old, add) (q, refl, refl)
      | inr new ↦
          let absent = known ∙ same ∙ new in
          rw (absent, new, add)
            (
              append_entry-IsRegistry s r (same ∙ new) q,
              refl,
              sockets_of-append r.entries (record { token = r.next_token; socket_ref = s }),
            )
    ]
  where
    Finds-is_found :
        (s : ℕ) (xs : List Registration) (found : Option (Registration × List Registration))
        → Finds s xs found
        → is_found found ≡ has_socket s xs
    Finds-is_found s xs none h = sym h
    Finds-is_found s xs (some _) h = sym h.0

retire_found-Refines :
    (s : ℕ) (r : Registry) (found : Option (Registration × List Registration))
    → IsRegistry r
    → Finds s r.entries found
    → IsRegistry (retire found r).1
      × ((retire found r).0 ≡ contains s (sockets_of r.entries))
      × (sockets_of (retire found r).1.entries ≡ erase_first s (sockets_of r.entries))
retire_found-Refines s r none q h =
    let absent = sym (has_socket-contains s r.entries) ∙ h in
    (q, sym absent, sym (erase_first-absent s _ absent))
retire_found-Refines s r (some (entry, others)) q (h, e, rest) = (
  retire-IsRegistry r entry others rest q,
  sym h ∙ has_socket-contains s r.entries,
  sockets_of-Extracts rest q.distinct ∙ ap (λ k. erase_first k (sockets_of r.entries)) e,
)

pub length-sockets_of : (xs : List Registration) → length (sockets_of xs) ≡ length xs
length-sockets_of [] = refl
length-sockets_of (x ∷ xs) = ap suc (length-sockets_of xs)

retire_entry-Refines :
    (index : ℕ) (r : Registry) (found : Option (Registration × List Registration))
    → IsRegistry r
    → At index r.entries found
    → Taken r.entries found
    → IsRegistry (retire found r).1
      × ((retire found r).0 ≡ ltb index (length (sockets_of r.entries)))
      × (sockets_of (retire found r).1.entries ≡ erase index 1 (sockets_of r.entries))
retire_entry-Refines index r none q at tk =
    (q, sym (ap (ltb index) (length-sockets_of r.entries) ∙ at.0), sym at.1)
retire_entry-Refines index r (some (entry, others)) q at tk = (
  retire-IsRegistry r entry others tk q,
  sym (ap (ltb index) (length-sockets_of r.entries) ∙ at.0),
  at.1,
)

-- Every operation on a well-formed registry keeps it well formed, and does to the registered sockets
-- what it does to an ordered set of them: an addition appends a socket that is not there, a removal
-- takes out the one that is meant, and the result says whether something changed.
pub run-Refines : (op : Operation) (r : Registry) → IsRegistry r → Refines op r
unfolding remove_socket remove_index clear
run-Refines (Operation.adds s) r q = add-Refines s r q
run-Refines (Operation.removes s) r q =
    retire_found-Refines s r (find s r.active r.entries) q
      (find-Finds s r.active r.entries q.listed_active)
run-Refines (Operation.removes_at index) r q =
    retire_entry-Refines index r (entry_at index r.entries) q (entry_at-At index r.entries)
      (entry_at-Taken index r.entries)
run-Refines Operation.clears r q = (clear-IsRegistry r q, refl, refl)
