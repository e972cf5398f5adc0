-- ===== src/Udp/Destination.antt =====
-- What a UDP socket (src/udp_socket.cpp) is after `udp_connect`.
use libaeon.Prelude.{
  ◌≡◌, refl, sym, subst, Bool, true, false, ◌&&◌, Option, none, some, ℤ, pos, is_neg, arith,
  Bool-cases, inl, inr,
}
use libaeon.Errors.{err_none}
use libaeon.Platform.{Platform, World, Family, family_eq, Sockaddr, ss_family}
use libaeon.Address.{get_port}
use libaeon.Socket.{Socket}
use libaeon.Socket.Connect.{is_internet}
use libaeon.Udp.Setup.{is_descriptor, select_family, install, ensure_family, udp_connect_address}
use libaeon.Udp.Candidates.{
  family_eq_refl, Kept, IsCandidate, close_candidate-same, select_family-same,
  select_family-IsCandidate,
}

-- The socket has the destination, a descriptor of its family, and no error.
abbrev pub HasDestination : Platform → Sockaddr → Socket → Type 0
HasDestination os target s =
    (s.remote_addr ≡ target)
    × (s.port ≡ pos (get_port os target))
    × (s.connected ≡ true)
    × (s.error_code ≡ err_none)
    × (family_eq (ss_family target) s.net_family ≡ true)
    × (is_descriptor s.sockfd ≡ true)

-- By the result: success with the destination, or failure.
abbrev pub ConnectEnds : Platform → Sockaddr → Socket → Bool → Socket → Type 0
ConnectEnds os target s true s' = HasDestination os target s'
ConnectEnds os target s false s' = Kept s s' × (is_neg s'.error_code ≡ true)

module _ (os : Platform) where
  -- By the result: a descriptor of the family, or failure.
  abbrev EnsureEnds : Family → Socket → Bool → Socket → Type 0
  EnsureEnds family s true s' =
      (family_eq family s'.net_family ≡ true) × (is_descriptor s'.sockfd ≡ true)
  EnsureEnds family s false s' = Kept s s' × (is_neg s'.error_code ≡ true)

  install-EnsureEnds :
      (family : Family) (candidate : Option ℤ) (s : Socket) (w : World)
      → IsCandidate candidate
      → let (r, s', w') = install os family candidate s w in EnsureEnds family s r s'
  unfolding install
  install-EnsureEnds family none s w h = (refl, refl)
  install-EnsureEnds family (some candidate) s w h =
      let installed : Socket = record s { sockfd = candidate; net_family = family } in
      subst (λ s'. EnsureEnds family s true s') (sym (close_candidate-same os s.sockfd installed w))
        (family_eq_refl family, h)

  ensure_family-EnsureEnds :
      (family : Family) (s : Socket) (w : World)
      → let (r, s', w') = ensure_family os family s w in EnsureEnds family s r s'
  unfolding ensure_family
  ensure_family-EnsureEnds family s w =
      let c = select_family os family s.blocking s w in
      let i = install os family c.0 c.1 c.2 in
      elim (Bool-cases (is_descriptor s.sockfd && family_eq family s.net_family)) [
        | inl fits ↦ rw (fits, ensure_family) (ground (arith, fits), ground (arith, fits))
        | inr other ↦
            rw (other, ensure_family)
              (subst (λ x. EnsureEnds family x i.0 i.1)
                (select_family-same os family s.blocking s w)
                (install-EnsureEnds family c.0 c.1 c.2
                  (select_family-IsCandidate os family s.blocking s w)))
      ]

  -- `udp_connect` to an address that returns true has set the destination, its port and a descriptor of
  -- its family, without an error; one that returns false has changed nothing but the error, which is
  -- negative.
  pub udp_connect_address-ConnectEnds :
      (target : Sockaddr) (s : Socket) (w : World)
      → let (r, s', w') = udp_connect_address os target s w in ConnectEnds os target s r s'
  unfolding udp_connect_address
  udp_connect_address-ConnectEnds target s w =
      let a = ensure_family os (ss_family target) s w in
      let ensured = ensure_family-EnsureEnds (ss_family target) s w in
      elim (Bool-cases (is_internet (ss_family target))) [
        | inr foreign_ ↦ rw (foreign_, udp_connect_address) (refl, refl)
        | inl known ↦ elim (Bool-cases a.0) [
          | inr failed ↦
              rw (known, failed, udp_connect_address)
                (subst (λ b. EnsureEnds (ss_family target) s b a.1) failed ensured)
          | inl ready ↦
              rw (known, ready, udp_connect_address)
                (let (fits, valid) =
                    subst (λ b. EnsureEnds (ss_family target) s b a.1) ready ensured in
                  (refl, refl, refl, refl, fits, valid))
        ]
      ]
