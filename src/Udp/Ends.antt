-- ===== src/Udp/Ends.antt =====
-- What a UDP socket (src/udp_socket.cpp) is after `udp_listen`.
use libaeon.Prelude.{
  ◌≡◌, refl, sym, subst, Bool, true, false, ◌&&◌, Option, none, some, List, [], ◌∷◌, ℤ, is_zero,
  to_ℕ, arith, Bool-cases, Option-cases, inl, inr,
}
use libaeon.Errors.{err_none, is_valid_port, err_no_socket}
use libaeon.Platform.{
  Platform, World, Family, family_eq, Sockaddr, Sockopt, Syscall, after, answer, History,
}
use libaeon.Socket.{Socket}
use libaeon.Socket.Connect.{is_internet}
use libaeon.Udp.Setup.{
  is_descriptor, select_family, close_candidate, discard_candidate, any_address, bind_candidate,
  prepare_candidate, listen_on, listen_families, udp_listen,
}
use libaeon.Udp.Candidates.{
  Kept, IsCandidate, close_candidate-same, select_family-same, select_family-IsCandidate,
}

module _ (os : Platform) where
  -- The last call has bound the descriptor to the address, with success.
  abbrev pub LastBinds : Sockaddr → ℤ → History → Type 0
  LastBinds addr fd [] = ⊥
  LastBinds addr fd (call ∷ before) =
      (call ≡ Syscall.bind fd addr) × (is_zero (os.reply (call ∷ before)).value ≡ true)

  -- The last call but one that closes has done so.
  abbrev pub Binds : Sockaddr → ℤ → History → Type 0
  Binds addr fd (Syscall.close_socket _ ∷ before) = LastBinds addr fd before
  Binds addr fd calls = LastBinds addr fd calls

  -- The system has bound the descriptor of the socket to the port of every interface, and the socket
  -- has no destination and no error.
  abbrev pub IsBound : ℤ → Socket → World → Type 0
  IsBound port s w =
      Binds (any_address os s.net_family (to_ℕ port)) s.sockfd w.calls
      × (s.port ≡ port)
      × (s.connected ≡ false)
      × (s.remote_addr ≡ Sockaddr.empty)
      × (s.error_code ≡ err_none)
      × (is_internet s.net_family ≡ true)
      × (is_descriptor s.sockfd ≡ true)

  abbrev pub ListenEnds : ℤ → Socket → Bool → Socket → World → Type 0
  ListenEnds port s true s' w' = IsBound port s' w'
  ListenEnds port s false s' w' = Kept s s'

  -- The outcome of one family: bound, or refused with an error and nothing changed.
  abbrev TryEnds : ℤ → Socket → Option ℤ → Socket → World → Type 0
  TryEnds port s none s' w' = IsBound port s' w'
  TryEnds port s (some code) s' w' = s' ≡ s

  close_candidate-Binds :
      (old fd : ℤ) (addr : Sockaddr) (s : Socket) (w : World)
      → let call = Syscall.bind fd addr in
        is_zero (answer os call w).value ≡ true
        → Binds addr fd (close_candidate os old s (after os call w)).2.calls
  unfolding close_candidate
  close_candidate-Binds old fd addr s w bound = elim (Bool-cases (is_descriptor old)) [
    | inl open_ ↦ rw (open_, close_candidate) (refl, bound)
    | inr none_ ↦ rw (none_, close_candidate) (refl, bound)
  ]

  discard_candidate-TryEnds :
      (port candidate : ℤ) (s : Socket) (w : World)
      → let (r, s', w') = discard_candidate os candidate s w in TryEnds port s r s' w'
  unfolding discard_candidate
  discard_candidate-TryEnds port candidate s w = close_candidate-same os candidate s w

  bind_candidate-TryEnds :
      (family : Family) (port candidate : ℤ) (s : Socket) (w : World)
      → is_internet family ≡ true
      → is_descriptor candidate ≡ true
      → let (r, s', w') = bind_candidate os family port candidate s w in TryEnds port s r s' w'
  unfolding bind_candidate
  bind_candidate-TryEnds family port candidate s w known valid =
      let call = Syscall.bind candidate (any_address os family (to_ℕ port)) in
      let bound : Socket = record s {
        sockfd = candidate;
        net_family = family;
        port = port;
        connected = false;
        remote_addr = Sockaddr.empty;
        error_code = err_none;
        error_state = 0;
      } in
      elim (Bool-cases (is_zero (answer os call w).value)) [
        | inr failed ↦
            rw (failed, bind_candidate)
              (discard_candidate-TryEnds port candidate s (after os call w))
        | inl fine ↦
            rw (fine, bind_candidate)
              (subst (λ s'. IsBound port s' (close_candidate os s.sockfd bound (after os call w)).2)
                (sym (close_candidate-same os s.sockfd bound (after os call w)))
                (
                  close_candidate-Binds s.sockfd candidate _ bound w fine,
                  refl,
                  refl,
                  refl,
                  refl,
                  known,
                  valid,
                ))
      ]

  prepare_candidate-TryEnds :
      (family : Family) (port : ℤ) (candidate : Option ℤ) (s : Socket) (w : World)
      → is_internet family ≡ true
      → IsCandidate candidate
      → let (r, s', w') = prepare_candidate os family port candidate s w in TryEnds port s r s' w'
  unfolding prepare_candidate
  prepare_candidate-TryEnds family port none s w known valid = refl
  prepare_candidate-TryEnds family port (some candidate) s w known valid =
      let call = Syscall.setsockopt candidate Sockopt.ipv6_v6only 0 in
      elim (Bool-cases (family_eq family Family.ipv6)) [
        | inr v4 ↦
            rw (v4, prepare_candidate)
              (bind_candidate-TryEnds family port candidate s w known valid)
        | inl v6 ↦ elim (Bool-cases (is_zero (answer os call w).value)) [
          | inr failed ↦
              rw (v6, failed, prepare_candidate)
                (discard_candidate-TryEnds port candidate s (after os call w))
          | inl fine ↦
              rw (v6, fine, prepare_candidate)
                (bind_candidate-TryEnds family port candidate s (after os call w) known valid)
        ]
      ]

  listen_on-TryEnds :
      (family : Family) (port : ℤ) (s : Socket) (w : World)
      → is_internet family ≡ true
      → let (r, s', w') = listen_on os family port s w in TryEnds port s r s' w'
  unfolding listen_on
  listen_on-TryEnds family port s w known =
      let c = select_family os family s.blocking s w in
      let p = prepare_candidate os family port c.0 c.1 c.2 in
      subst (λ x. TryEnds port x p.0 p.1 p.2) (select_family-same os family s.blocking s w)
        (prepare_candidate-TryEnds family port c.0 c.1 c.2 known
          (select_family-IsCandidate os family s.blocking s w))

  abbrev all_internet : List Family → Bool
  all_internet [] = true
  all_internet (family ∷ rest) = is_internet family && all_internet rest

  listen_families-ListenEnds :
      (families : List Family) (port previous : ℤ) (s : Socket) (w : World)
      → all_internet families ≡ true
      → let (r, s', w') = listen_families os families port previous s w in ListenEnds port s r s' w'
  unfolding listen_families
  listen_families-ListenEnds [] port previous s w h = refl
  listen_families-ListenEnds (family ∷ rest) port previous s w h =
      let a = listen_on os family port s w in
      let tried = listen_on-TryEnds family port s w (ground (arith, h)) in
      elim (Option-cases a.0) [
        | inl bound ↦
            rw (bound, listen_families) (subst (λ o. TryEnds port s o a.1 a.2) bound tried)
        | inr (code, refused) ↦
            rw (refused, listen_families)
              (let l = listen_families os rest port code a.1 a.2 in
                let same : a.1 ≡ s = subst (λ o. TryEnds port s o a.1 a.2) refused tried in
                subst (λ x. ListenEnds port x l.0 l.1 l.2) same
                  (listen_families-ListenEnds rest port code a.1 a.2 (ground (arith, h))))
      ]

  -- `udp_listen` that returns true has bound the socket to the port: the last call, or the last before
  -- the old descriptor was closed, is a successful `bind` of its descriptor to that port of every
  -- interface. The descriptor is of an internet family, and the socket has no destination and no
  -- error. `udp_listen` that returns false has changed nothing but the error.
  pub udp_listen-ListenEnds :
      (port : ℤ) (s : Socket) (w : World)
      → let (r, s', w') = udp_listen os port s w in ListenEnds port s r s' w'
  unfolding udp_listen
  udp_listen-ListenEnds port s w = elim (Bool-cases (is_valid_port port)) [
    | inr bad ↦ rw (bad, udp_listen) refl
    | inl good ↦
        rw (good, udp_listen)
          (listen_families-ListenEnds (Family.ipv6 ∷ Family.ipv4 ∷ []) port err_no_socket s w refl)
  ]
