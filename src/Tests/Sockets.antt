-- ===== src/Tests/Sockets.antt =====
-- The theorems about sockets at concrete inputs, and runs of their methods.
use libaeon.Prelude.{
  ℕ, ◌≡◌, ◌≤◌, ◌⊎◌, ◌↔◌, ◌≢◌, ◌++◌, refl, true, some, List, [], ◌∷◌, pos, arith, length, take,
  is_nonpos, is_neg, to_ℕ,
}
use libaeon.Errors.{translate_native_error}
use libaeon.Errors.Translate.{translate_native_error-neg}
use libaeon.Socket.{Socket, create_default}
use libaeon.Socket.Transfer.{write, read, receive, read_until, read_rest, overwrite}
use libaeon.Socket.Transfer.Read.{ReadEnds, delivered, read-ReadEnds}
use libaeon.Socket.Transfer.Write.{WriteEnds, write-WriteEnds}
use libaeon.Socket.Transfer.Stream.{read_until-delivered}
use libaeon.Tests.Systems.{kind_os, kind_os-IsPosix, linux_errnos, fresh_world}

abbrev pub open_socket : Socket
open_socket = record (create_default kind_os fresh_world).0 { sockfd = pos 3 }

abbrev blank : List ℕ
blank = 0 ∷ 0 ∷ 0 ∷ 0 ∷ 0 ∷ 0 ∷ []

translate_native_error-neg_example :
    (is_neg (translate_native_error linux_errnos 104) ≡ true) ↔ (◌≢◌ {A = ℕ} 104 0)
translate_native_error-neg_example = translate_native_error-neg linux_errnos 104

read-ReadEnds_example :
    let (r, s', w') = read kind_os (some blank) (pos 6) open_socket fresh_world in
    ReadEnds kind_os 6 blank open_socket fresh_world r.0 r.1 s' w'
    × (s'.n ≡ r.0)
    × (s'.sockfd ≡ open_socket.sockfd)
read-ReadEnds_example =
    read-ReadEnds kind_os kind_os-IsPosix (some blank) (pos 6) open_socket fresh_world

read_until-delivered_example :
    let (r, s', w') = read_until kind_os (some blank) (pos 6) open_socket fresh_world in
    (r.0 ≡ pos (to_ℕ r.0))
    × (to_ℕ r.0 ≤ 6)
    × (length (take (to_ℕ r.0) r.1) ≡ to_ℕ r.0)
    × (r.1 ≡ overwrite (take (to_ℕ r.0) r.1) blank)
    × (delivered kind_os w'.calls ≡ delivered kind_os fresh_world.calls ++ take (to_ℕ r.0) r.1)
    × ((to_ℕ r.0 ≡ 6) ⊎ (is_nonpos s'.n ≡ true))
read_until-delivered_example =
    read_until-delivered kind_os kind_os-IsPosix blank 6 open_socket fresh_world refl (omega arith)

-- The first read brings four bytes, the second the two that are missing.
read_until_test :
    (read_until kind_os (some blank) (pos 6) open_socket fresh_world).0
    ≡ (pos 6, 72 ∷ 105 ∷ 13 ∷ 10 ∷ 72 ∷ 105 ∷ [])
unfolding read_until read_rest read receive create_default
read_until_test = refl

write-WriteEnds_example :
    let (r, s', w') = write kind_os (some (1 ∷ 2 ∷ 3 ∷ [])) (pos 2) open_socket fresh_world in
    WriteEnds kind_os (take 2 (1 ∷ 2 ∷ 3 ∷ [])) open_socket fresh_world r s' w'
write-WriteEnds_example =
    write-WriteEnds kind_os kind_os-IsPosix (some (1 ∷ 2 ∷ 3 ∷ [])) (pos 2) open_socket fresh_world
