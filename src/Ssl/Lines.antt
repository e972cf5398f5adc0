-- ===== src/Ssl/Lines.antt =====
-- What `read_line` reads through TLS (src/ssl_socket.cpp).
use libaeon.Prelude.{
  ℕ, zero, suc, ◌-◌, ◌≤◌, ◌==◌, ◌≡◌, refl, sym, ap, ◌∙◌, not, ◌||◌, Bool, true, false, List, [],
  ◌∷◌, ◌++◌, ℤ, pos, negsuc, is_nonpos, to_ℕ, length, append-nil, append_assoc, if◌then◌else◌,
  arith, Bool-cases, inl, inr,
}
use libaeon.Socket.Transfer.{head_or}
use libaeon.Ssl.{OpenSsl, Stage, pop_errors, clear_ssl_errors}
use libaeon.Ssl.Stream.{is_down, line_rounds, read_ssl_line}

-- What a read did, by its result.
abbrev pub Delivers : ℕ → List ℕ → List ℕ → List ℕ → ℤ → Type 0
Delivers size bytes before after (pos zero) = after ≡ before
Delivers size bytes before after (pos (suc k)) =
    (length bytes ≡ suc k) × (suc k ≤ size) × (after ≡ before ++ bytes)
Delivers size bytes before after (negsuc _) = after ≡ before

-- What is relied on of SSL_read: it delivers the next bytes of the peer, as many as it says, and none
-- when it fails; the queue of errors has no bytes of the peer.
pub record DeliversInOrder {X : Type 0} (lib : OpenSsl X) : Type 0 where
  pub delivered : X → List ℕ
  pub read_delivers :
      (size : ℕ) (x : X)
      → let ((count, bytes), x') = lib.ssl_read size x in
        Delivers size bytes (delivered x) (delivered x') count
  pub error_keeps : (x : X) → delivered (lib.err_get_error x).1 ≡ delivered x

-- A line of at most so many bytes: it ends with its first newline, or has all of them.
abbrev pub is_line : ℕ → List ℕ → Bool
is_line rounds [] = rounds == 0
is_line zero (byte ∷ rest) = false
is_line (suc rounds) (byte ∷ rest) = if byte == 10 then length rest == 0 else is_line rounds rest

delivered_nothing :
    (size : ℕ) (bytes before after : List ℕ) (count : ℤ)
    → Delivers size bytes before after count
    → is_nonpos count ≡ true
    → after ≡ before
delivered_nothing size bytes before after (pos zero) d h = d
delivered_nothing size bytes before after (pos (suc k)) d h = cc
delivered_nothing size bytes before after (negsuc k) d h = d

one_byte :
    (bytes : List ℕ) (k : ℕ) → length bytes ≡ suc k → suc k ≤ 1 → bytes ≡ head_or 0 bytes ∷ []
one_byte [] k h small = absurd (ground (arith, h))
one_byte (b ∷ []) k h small = refl
one_byte (b ∷ c ∷ rest) k h small = absurd (ground (arith, h, small))

delivered_byte :
    (bytes before after : List ℕ) (count : ℤ)
    → Delivers 1 bytes before after count
    → is_nonpos count ≡ false
    → after ≡ before ++ head_or 0 bytes ∷ []
delivered_byte bytes before after (pos zero) d h = cc
delivered_byte bytes before after (pos (suc k)) (size, small, e) h =
    e ∙ ap (λ l. before ++ l) (one_byte bytes k size small)
delivered_byte bytes before after (negsuc k) d h = cc

module _ {X : Type 0} (lib : OpenSsl X) (law : DeliversInOrder lib) where
  pop_errors-delivered :
      (fuel : ℕ) (x : X) → law.delivered (pop_errors lib fuel x) ≡ law.delivered x
  unfolding pop_errors
  pop_errors-delivered zero x = refl
  pop_errors-delivered (suc fuel) x = elim (Bool-cases ((lib.err_get_error x).0 == 0)) [
    | inl last ↦ rw (last, pop_errors) (law.error_keeps x)
    | inr more ↦
        rw (more, pop_errors)
          (pop_errors-delivered fuel (lib.err_get_error x).1 ∙ law.error_keeps x)
  ]

  -- The bytes that came are behind the line so far; they are a line if the loop went to its end.
  abbrev pub LineEnds : ℕ → List ℕ → X → Bool → List ℕ → X → Type 0
  LineEnds rounds line x complete out x' =
      (new : List ℕ) × (out ≡ line ++ new)
      × (law.delivered x' ≡ law.delivered x ++ new)
      × (complete ≡ true → is_line rounds new ≡ true)

  line_rounds-LineEnds :
      (rounds : ℕ) (line : List ℕ) (g : Stage X)
      → let ((complete, out), g') = line_rounds lib rounds line g in
        LineEnds rounds line g.below complete out g'.below
  unfolding line_rounds clear_ssl_errors
  line_rounds-LineEnds zero line g =
      ([], sym (append-nil line), sym (append-nil (law.delivered g.below)), λ _. refl)
  line_rounds-LineEnds (suc rounds) line g =
      let x₁ = pop_errors lib (suc (lib.queued_errors g.below)) g.below in
      let cleared = pop_errors-delivered (suc (lib.queued_errors g.below)) g.below in
      let out = lib.ssl_read 1 x₁ in
      let byte = head_or 0 out.0.1 in
      let came = law.read_delivers 1 x₁ in
      elim (Bool-cases (is_nonpos out.0.0)) [
        | inl failed ↦
            rw (failed, line_rounds)
              (
                [],
                sym (append-nil line),
                delivered_nothing 1 out.0.1 _ _ out.0.0 came failed
                    ∙ cleared
                    ∙ sym (append-nil (law.delivered g.below)),
                λ h. absurd (ground (arith, h)),
              )
        | inr fine ↦
            let next : law.delivered out.1 ≡ law.delivered g.below ++ byte ∷ [] =
              delivered_byte out.0.1 _ _ out.0.0 came fine ∙ ap (λ l. l ++ byte ∷ []) cleared in
            elim (Bool-cases (byte == 10)) [
              | inl newline ↦
                  rw (fine, newline, line_rounds)
                    (byte ∷ [], refl, next, λ _. ground (arith, newline))
              | inr other ↦
                  rw (fine, other, line_rounds)
                    (let (new, whole, more, line') =
                        line_rounds-LineEnds rounds (line ++ byte ∷ [])
                          (record g { below = out.1 }) in
                      (
                        byte ∷ new,
                        whole ∙ append_assoc line (byte ∷ []) new,
                        more
                            ∙ ap (λ l. l ++ new) next
                            ∙ append_assoc (law.delivered g.below) (byte ∷ []) new,
                        λ h. ground (arith, other, line' h),
                      ))
            ]
      ]

  -- By the result: a line with a zero byte behind it, or what came before a failure.
  abbrev pub LineRead : ℤ → X → ℤ → List ℕ → X → Type 0
  LineRead size x (pos n) written x' =
      (line : List ℕ) × (written ≡ line ++ 0 ∷ [])
      × (n ≡ length line)
      × (is_line (to_ℕ size - 1) line ≡ true)
      × (law.delivered x' ≡ law.delivered x ++ line)
  LineRead size x (negsuc _) written x' = law.delivered x' ≡ law.delivered x ++ written

  -- `read_line` that does not fail returns the length of a line: the bytes up to the first newline, or
  -- one byte less than the size, which are the next bytes of the peer and stand in the buffer with a
  -- zero byte behind them. When it fails, the bytes that had come by then stand in the buffer.
  pub read_ssl_line-LineRead :
      (has_buffer : Bool) (size : ℤ) (g : Stage X)
      → let ((result, written), g') = read_ssl_line lib has_buffer size g in
        LineRead size g.below result written g'.below
  unfolding read_ssl_line
  read_ssl_line-LineRead has_buffer size g =
      let nothing = sym (append-nil (law.delivered g.below)) in
      elim (Bool-cases (not has_buffer || is_nonpos size)) [
        | inl bad ↦ rw (bad, read_ssl_line) nothing
        | inr good ↦ elim (Bool-cases (is_down g.tls)) [
          | inl down ↦ rw (good, down, read_ssl_line) nothing
          | inr up ↦
              let (new, whole, came, line) = line_rounds-LineEnds (to_ℕ size - 1) [] g in
              let out = line_rounds lib (to_ℕ size - 1) [] g in
              elim (Bool-cases out.0.0) [
                | inl complete ↦
                    rw (good, up, complete, read_ssl_line)
                      (new, ap (λ l. l ++ 0 ∷ []) whole, ap length whole, line complete, came)
                | inr failed ↦
                    rw (good, up, failed, read_ssl_line)
                      (came ∙ ap (λ l. law.delivered g.below ++ l) (sym whole))
              ]
        ]
      ]
