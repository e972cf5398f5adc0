-- ===== src/Tests/Systems.antt =====
-- A platform on which every call succeeds, and transports that take a little at a time.
use libaeon.Prelude.{
  ℕ, ◌≡◌, ◌≢◌, ap, true, false, some, List, [], ◌∷◌, ◌++◌, ℤ, pos, negsuc, to_ℕ, arith, length,
  take, length-take, is_neg,
}
use libaeon.Errors.{Errnos}
use libaeon.Platform.{Platform, IsPosix, Syscall, Reply, Sockaddr, World, History}
use libaeon.WriteQueue.{Transport}
use libaeon.WriteQueue.Flush.{Carries}

abbrev pub linux_errnos : Errnos
linux_errnos = record {
  ebadf = 9;
  enotsock = 88;
  einval = 22;
  etimedout = 110;
  eagain = 11;
  ewouldblock = 11;
  eintr = 4;
  econnrefused = 111;
  econnreset = 104;
  econnaborted = 103;
  enotconn = 107;
  eaddrinuse = 98;
  enetunreach = 101;
  ehostunreach = 113;
  eacces = 13;
  eperm = 1;
  emsgsize = 90;
  eaddrnotavail = 99;
  eisconn = 106;
  einprogress = 115;
  ealready = 114;
  epipe = 32;
  enetdown = 100;
  enetreset = 102;
  enobufs = 105;
  emfile = 24;
  enfile = 23;
  enotsup = 95;
  eopnotsupp = 95;
  eprotonosupport = 93;
  eafnosupport = 97;
  eproto = 71;
}

abbrev pub peer_addr : Sockaddr
peer_addr = Sockaddr.inet 80 (127 ∷ 0 ∷ 0 ∷ 1 ∷ [])

abbrev plain : ℤ → List ℕ → Reply
plain value bytes = record {
  value = value;
  error = 0;
  bytes = bytes;
  peer = peer_addr;
  found = peer_addr ∷ [];
}

abbrev pub sample : List ℕ
sample = 72 ∷ 105 ∷ 13 ∷ 10 ∷ []

-- Descriptors are 3, a receive delivers up to four bytes, a send takes all.
abbrev pub kind_reply : History → Reply
kind_reply [] = plain (pos 0) []
kind_reply (Syscall.open_socket family type ∷ h) = plain (pos 3) []
kind_reply (Syscall.accept fd ∷ h) = plain (pos 4) []
kind_reply (Syscall.recv fd size ∷ h) = plain (pos (length (take size sample))) (take size sample)
kind_reply (Syscall.recv_from fd size ∷ h) =
    plain (pos (length (take size sample))) (take size sample)
kind_reply (Syscall.send fd bytes ∷ h) = plain (pos (length bytes)) []
kind_reply (Syscall.send_to fd bytes to ∷ h) = plain (pos (length bytes)) []
kind_reply (Syscall.select_readable fd ms ∷ h) = plain (pos 1) []
kind_reply (Syscall.select_writable fd ms ∷ h) = plain (pos 1) []
kind_reply (_ ∷ h) = plain (pos 0) []

abbrev pub kind_os : Platform
kind_os = record {
  errnos = linux_errnos;
  reply = kind_reply;
  htons = λ p. p;
  ntohs = λ p. p;
  inet_pton = λ _ _. some (127 ∷ 0 ∷ 0 ∷ 1 ∷ []);
  inet_ntop = λ _ bytes. some bytes;
}

kind_errno_set :
    (c : Syscall) (h : History)
    → is_neg (kind_reply (c ∷ h)).value ≡ true
    → (kind_reply (c ∷ h)).error ≢ 0
kind_errno_set (Syscall.open_socket family type) h failed = cc
kind_errno_set _ h failed = cc

pub kind_os-IsPosix : IsPosix kind_os
kind_os-IsPosix = record {
  errno_set = kind_errno_set;
  recv_length = λ fd size n h e.
      let k : length (take size sample) ≡ n = ap to_ℕ e in
      (k, omega (arith, k, length-take size sample));
}

abbrev pub fresh_world : World
fresh_world = record { calls = []; errno = 0 }

-- A transport that takes two bytes at a time, and keeps them.
abbrev pub slow : Transport (List ℕ)
slow = record {
  poll_send_queued = λ bytes t. (pos (length (take 2 bytes)), t ++ take 2 bytes);
  errno = λ _. 0;
  get_error = λ _. pos 0;
  poll_error_terminal = false;
}

pub slow_taken :
    (bytes : List ℕ) (count : ℕ) → length (take 2 bytes) ≡ count → take 2 bytes ≡ take count bytes
slow_taken [] count e = ap (λ n. take {A = ℕ} n []) e
slow_taken (x ∷ []) count e = ap (λ n. take n (x ∷ [])) e
slow_taken (x ∷ y ∷ rest) count e = ap (λ n. take n (x ∷ y ∷ rest)) e

pub slow_failed :
    (bytes : List ℕ) (t : List ℕ) (k : ℕ)
    → (slow.poll_send_queued bytes t).0 ≡ negsuc k
    → (slow.poll_send_queued bytes t).1 ≡ t
slow_failed bytes t k e = cc

abbrev pub slow-Carries : Carries slow
slow-Carries = record {
  taken = λ t. t;
  taken_sent = λ bytes t count e. ap (λ l. t ++ l) (slow_taken bytes count (ap to_ℕ e));
  taken_failed = slow_failed;
}
