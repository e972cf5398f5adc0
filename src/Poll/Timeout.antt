-- ===== src/Poll/Timeout.antt =====
-- How long a round may wait (src/event_socket_set.cpp).
use libaeon.Prelude.{
  ==ℤ-refl, ==ℤ→eq, ap, zero, suc, ◌≡◌, refl, Bool, true, false, not, ◌&&◌, ◌||◌, List, [], ◌∷◌, ℤ,
  pos, negsuc, is_neg, ◌==ℤ◌, ltb, arith, Bool-cases, inl, inr, if◌then◌else◌,
}
use libaeon.Poll.{Host, Watch}
use libaeon.Poll.Wait.{is_current, sooner, effective_timeout, forever}

-- The first limit is not longer than the second; a negative one is no limit.
abbrev pub within : ℤ → ℤ → Bool
within (pos m) (pos n) = not (ltb n m)
within (pos m) (negsuc n) = true
within (negsuc m) (pos n) = false
within (negsuc m) (negsuc n) = true

within_refl : (t : ℤ) → within t t ≡ true
within_refl (pos m) = ground arith
within_refl (negsuc m) = refl

within_trans : (a b c : ℤ) → within a b ≡ true → within b c ≡ true → within a c ≡ true
within_trans (pos a) (pos b) (pos c) h k = ground (arith, h, k)
within_trans (pos a) b (negsuc c) h k = refl
within_trans (pos a) (negsuc b) (pos c) h k = cc
within_trans (negsuc a) (pos b) c h k = cc
within_trans (negsuc a) (negsuc b) (pos c) h k = cc
within_trans (negsuc a) (negsuc b) (negsuc c) h k = refl

-- What a caller may ask for: a time limit, or to wait for ever.
abbrev pub is_limit : ℤ → Bool
is_limit t = not (is_neg t) || t ==ℤ forever

sooner_lem :
    (due t : ℤ)
    → is_limit t ≡ true
    → (is_limit (sooner due t) ≡ true)
      × (within (sooner due t) t ≡ true)
      × ((is_neg due || within (sooner due t) due) ≡ true)
      × ((sooner due t ==ℤ t || not (is_neg due) && sooner due t ==ℤ due) ≡ true)
sooner_lem (pos d) (pos t) h = ground arith
sooner_lem (pos d) (negsuc zero) h = ground arith
sooner_lem (pos d) (negsuc (suc t)) h = ground (arith, h)
sooner_lem (negsuc d) (pos t) h = ground arith
sooner_lem (negsuc d) (negsuc t) h = ground (arith, h)

module _ {S : Type 0} (host : Host S) where
  -- The limit of a watched TCP socket that is still the one watched; negative if it has none.
  abbrev pub due_of : Watch → S → ℤ
  due_of w s =
      if w.is_tcp && is_current host w s then host.poll_timeout_ms w.entry.socket_ref s else forever

  -- A limit is not longer than that of any of the sockets.
  abbrev pub all_within : ℤ → List Watch → S → Bool
  all_within t [] s = true
  all_within t (w ∷ rest) s = (is_neg (due_of w s) || within t (due_of w s)) && all_within t rest s

  -- A limit is that of one of the sockets.
  abbrev pub is_due_of_one : ℤ → List Watch → S → Bool
  is_due_of_one t [] s = false
  is_due_of_one t (w ∷ rest) s =
      not (is_neg (due_of w s)) && t ==ℤ due_of w s || is_due_of_one t rest s

  abbrev pub IsShortest : ℤ → ℤ → List Watch → S → Type 0
  IsShortest e t watches s =
      (is_limit e ≡ true)
      × (within e t ≡ true)
      × (all_within e watches s ≡ true)
      × ((e ==ℤ t || is_due_of_one e watches s) ≡ true)

  -- One socket's step of the loop.
  abbrev shorten : Watch → S → ℤ → ℤ
  shorten w s t =
      if w.is_tcp && is_current host w s
      then sooner (host.poll_timeout_ms w.entry.socket_ref s) t
      else t

  shorten_lem :
      (w : Watch) (s : S) (t : ℤ)
      → is_limit t ≡ true
      → (is_limit (shorten w s t) ≡ true)
        × (within (shorten w s t) t ≡ true)
        × ((is_neg (due_of w s) || within (shorten w s t) (due_of w s)) ≡ true)
        × ((shorten w s t ==ℤ t || not (is_neg (due_of w s)) && shorten w s t ==ℤ due_of w s)
            ≡ true)
  shorten_lem w s t h = elim (Bool-cases (w.is_tcp && is_current host w s)) [
    | inl live ↦ rw live (sooner_lem (host.poll_timeout_ms w.entry.socket_ref s) t h)
    | inr dead ↦ rw dead (h, within_refl t, refl, ground (arith, ==ℤ-refl t))
  ]

  IsShortest-cons :
      (e t : ℤ) (w : Watch) (rest : List Watch) (s : S)
      → is_limit t ≡ true
      → IsShortest e (shorten w s t) rest s
      → IsShortest e t (w ∷ rest) s
  IsShortest-cons e t w rest s h (limit, below, others, one) =
      let (a, b, c, d) = shorten_lem w s t h in
      (
        limit,
        within_trans e (shorten w s t) t below b,
        ground (arith, others, c, within_trans e (shorten w s t) (due_of w s) below),
        elim (Bool-cases (e ==ℤ shorten w s t)) [
          | inl same ↦ ground (
            arith,
            d,
            ap (λ v. v ==ℤ t) (==ℤ→eq e _ same),
            ap (λ v. v ==ℤ due_of w s) (==ℤ→eq e _ same),
          )
          | inr other ↦ ground (arith, one, other)
        ],
      )

  -- The effective limit is the shortest of the caller's limit and the deadlines of the watched TCP
  -- sockets, and no other time.
  pub effective_timeout-IsShortest :
      (t : ℤ) (watches : List Watch) (s : S)
      → is_limit t ≡ true
      → IsShortest (effective_timeout host t watches s) t watches s
  unfolding effective_timeout
  effective_timeout-IsShortest t [] s h = (h, within_refl t, refl, ground (arith, ==ℤ-refl t))
  effective_timeout-IsShortest t (w ∷ rest) s h =
      IsShortest-cons (effective_timeout host (shorten w s t) rest s) t w rest s h
        (effective_timeout-IsShortest (shorten w s t) rest s (shorten_lem w s t h).0)
