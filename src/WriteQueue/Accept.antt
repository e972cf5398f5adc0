-- ===== src/WriteQueue/Accept.antt =====
-- What `queue_write` and the limit (src/event_socket.cpp) accept, and what they leave alone.
use libaeon.Prelude.{
  ℕ, ◌+◌, ◌-◌, ◌≤◌, ◌<◌, ◌≡◌, refl, sym, ap, ◌∙◌, inl, inr, Bool, true, false, ◌&&◌, some, List, [],
  ◌∷◌, ◌++◌, arith, ◌==◌, ltb, leb, ltb→le, ltb→lt, length, drop, join, length-append,
  drop-append_le, Bool-cases, append_assoc, append-nil, le→leb, lt→leb, ==→eq, ==→ne, take_all,
  nil_of_length,
}
use libaeon.WriteQueue.{
  Outgoing, size_modulus, size_sub, coalesce_limit, push_chunk, queue_write, set_max_queued_bytes,
}
use libaeon.WriteQueue.Contents.{contents, AllFilled, OffsetFits, IsQueue, size_sub_le}

join-push_chunk :
    (new : List ℕ) (chunks : List (List ℕ)) → join (push_chunk new chunks) ≡ join chunks ++ new
join-push_chunk new [] = append-nil new
join-push_chunk new (back ∷ []) =
    elim (Bool-cases (
      ltb (length back) coalesce_limit
      && leb (length new) (size_sub coalesce_limit (length back)))) [
        | inl joins ↦ rw joins (simp append-nil)
        | inr apart ↦ rw apart (simp append-nil)
      ]
join-push_chunk new (chunk ∷ next ∷ rest) =
    ap (λ l. chunk ++ l) (join-push_chunk new (next ∷ rest)) ∙ sym (append_assoc chunk _ new)

push_chunk-AllFilled :
    (new : List ℕ) (chunks : List (List ℕ))
    → 0 < length new
    → AllFilled chunks
    → AllFilled (push_chunk new chunks)
push_chunk-AllFilled new [] h f = (h, tt)
push_chunk-AllFilled new (back ∷ []) h f = ground (arith, length-append back new)
push_chunk-AllFilled new (chunk ∷ next ∷ rest) h f =
    (f.0, push_chunk-AllFilled new (next ∷ rest) h f.1)

push_chunk-OffsetFits :
    (offset : ℕ) (new : List ℕ) (chunks : List (List ℕ))
    → 0 < length new
    → OffsetFits offset chunks
    → OffsetFits offset (push_chunk new chunks)
push_chunk-OffsetFits offset new [] h f = omega arith
push_chunk-OffsetFits offset new (back ∷ []) h f = ground (arith, length-append back new)
push_chunk-OffsetFits offset new (chunk ∷ next ∷ rest) h f = f

-- What a call of `queue_write` has done, by its result: the bytes stand behind those that wait
-- already, or nothing has changed.
abbrev pub Queues : List ℕ → Outgoing → Bool × Outgoing → Type 0
Queues new out (true, out') =
    (contents out' ≡ contents out ++ new)
    × (out'.bytes ≡ out.bytes + length new)
    × (out'.bytes ≤ out'.limit)
    × (out'.limit ≡ out.limit)
Queues new out (false, out') = out' ≡ out

module _ (ready : Bool) (data_ : List ℕ) (out : Outgoing) (q : IsQueue out) where
  push-IsQueue :
      0 < length data_
      → length data_ ≤ out.limit - out.bytes
      → IsQueue
          (record out { chunks = push_chunk data_ out.chunks; bytes = out.bytes + length data_ })
  push-IsQueue more room = record {
    counted = omega (
      arith,
      q.counted,
      ap length (join-push_chunk data_ out.chunks),
      length-append (join out.chunks) data_,
    );
    fits = push_chunk-OffsetFits out.front_offset data_ out.chunks more q.fits;
    filled = push_chunk-AllFilled data_ out.chunks more q.filled;
    bounded = omega (arith, q.bounded);
    representable = q.representable;
  }

  push-contents :
      contents
        (record out { chunks = push_chunk data_ out.chunks; bytes = out.bytes + length data_ })
      ≡ contents out ++ data_
  push-contents =
      ap (drop out.front_offset) (join-push_chunk data_ out.chunks)
      ∙ drop-append_le out.front_offset (join out.chunks) data_ (omega (arith, q.counted))

  -- `queue_write(const std::string& data)` keeps the queue well formed. It takes the bytes exactly if
  -- the socket is ready and they fit below the limit; then it appends the whole of them, and
  -- otherwise it changes nothing.
  pub queue_write-Queues :
      IsQueue (queue_write ready (some data_) (length data_) out).1
      × Queues data_ out (queue_write ready (some data_) (length data_) out)
      × ((queue_write ready (some data_) (length data_) out).0
          ≡ (ready && leb (length data_) (out.limit - out.bytes)))
  unfolding queue_write
  queue_write-Queues = elim (Bool-cases ready) [
    | inr unready ↦ rw (unready, queue_write) (q, refl, refl)
    | inl is_ready ↦ elim (Bool-cases (length data_ == 0)) [
      | inl empty ↦
          let none_new = nil_of_length data_ (==→eq _ _ empty) in
          rw (is_ready, empty, queue_write)
            (
              q,
              (
                sym (ap (λ l. contents out ++ l) none_new ∙ append-nil (contents out)),
                omega (arith, ==→eq (length data_) 0 empty),
                q.bounded,
                refl,
              ),
              sym (
                  le→leb (length data_) (out.limit - out.bytes)
                    (omega (arith, ==→eq (length data_) 0 empty))),
            )
      | inr more ↦ elim (Bool-cases (ltb (size_sub out.limit out.bytes) (length data_))) [
        | inl full ↦
            rw (is_ready, more, full, queue_write)
              (
                q,
                refl,
                sym (
                    lt→leb (length data_) (out.limit - out.bytes) (
                      omega (
                        arith,
                        size_sub_le out.limit out.bytes q.bounded,
                        ltb→lt (size_sub out.limit out.bytes) (length data_) full,
                      ))),
              )
        | inr room ↦
            let fits : length data_ ≤ out.limit - out.bytes = omega (
              arith,
              size_sub_le out.limit out.bytes q.bounded,
              ltb→le (size_sub out.limit out.bytes) (length data_) room,
            ) in
            rw (is_ready, more, room, queue_write, take_all (length data_) data_ (omega arith))
              (
                push-IsQueue (omega (arith, ==→ne (length data_) 0 more)) fits,
                (push-contents, refl, omega (arith, fits, q.bounded), refl),
                sym (le→leb (length data_) (out.limit - out.bytes) fits),
              )
      ]
    ]
  ]

-- A new limit is taken exactly if the queued bytes stay within it; the bytes stay as they are.
pub set_max_queued_bytes-IsQueue :
    (limit : ℕ) (out : Outgoing)
    → limit < size_modulus
    → IsQueue out
    → IsQueue (set_max_queued_bytes limit out).1
      × (contents (set_max_queued_bytes limit out).1 ≡ contents out)
      × ((set_max_queued_bytes limit out).0 ≡ leb out.bytes limit)
unfolding set_max_queued_bytes
set_max_queued_bytes-IsQueue limit out small q = elim (Bool-cases (ltb limit out.bytes)) [
  | inl below ↦
      rw (below, set_max_queued_bytes)
        (q, refl, sym (lt→leb out.bytes limit (ltb→lt limit out.bytes below)))
  | inr above ↦
      let within : out.bytes ≤ limit = ltb→le limit out.bytes above in
      rw (above, set_max_queued_bytes)
        (
          record {
            counted = q.counted;
            fits = q.fits;
            filled = q.filled;
            bounded = within;
            representable = small;
          },
          refl,
          sym (le→leb out.bytes limit within),
        )
]
