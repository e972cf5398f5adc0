-- ===== src/WriteQueue/Contents.antt =====
-- The queue (src/event_socket.cpp) read as the bytes that wait, and its invariant.
use libaeon.Prelude.{
  ℕ, ◌+◌, ◌-◌, ◌≤◌, ◌<◌, ◌≡◌, ◌≢◌, refl, sym, ap, ◌∙◌, inl, inr, List, [], ◌∷◌, ◌++◌, arith, ◌==◌,
  ==→eq, ==→ne, length, take, drop, join, length-append, length-drop, drop-drop, drop-append_le,
  drop-append_length, take-append_le, Bool-cases,
}
use libaeon.WriteQueue.{Outgoing, size_modulus, size_sub, clear, front_of, advance, initial}

-- The bytes that wait, the next to be sent first.
abbrev pub contents : Outgoing → List ℕ
contents out = drop out.front_offset (join out.chunks)

abbrev pub AllFilled : List (List ℕ) → Type 0
AllFilled [] = Unit
AllFilled (chunk ∷ chunks) = (0 < length chunk) × AllFilled chunks

-- A part of the front chunk may be sent, never the whole of it.
abbrev pub OffsetFits : ℕ → List (List ℕ) → Type 0
OffsetFits offset [] = offset ≡ 0
OffsetFits offset (front ∷ _) = offset < length front

pub record IsQueue (out : Outgoing) : Type 0 where
  pub counted : out.bytes + out.front_offset ≡ length (join out.chunks)
  pub fits : OffsetFits out.front_offset out.chunks
  pub filled : AllFilled out.chunks
  pub bounded : out.bytes ≤ out.limit
  pub representable : out.limit < size_modulus

pub initial-IsQueue : IsQueue initial
initial-IsQueue = record {
  counted = refl;
  fits = refl;
  filled = tt;
  bounded = omega arith;
  representable = omega arith;
}

pub clear-IsQueue : (out : Outgoing) → IsQueue out → IsQueue (clear out)
clear-IsQueue out q = record {
  counted = refl;
  fits = refl;
  filled = tt;
  bounded = omega arith;
  representable = q.representable;
}

pub length-contents : (out : Outgoing) → IsQueue out → length (contents out) ≡ out.bytes
length-contents out q = omega (arith, length-drop out.front_offset (join out.chunks), q.counted)

-- What `front()` offers is a first part of the contents.
pub front-prefix :
    (offset : ℕ) (chunks : List (List ℕ)) (k : ℕ)
    → OffsetFits offset chunks
    → k ≤ length (front_of chunks) - offset
    → take k (drop offset (front_of chunks)) ≡ take k (drop offset (join chunks))
front-prefix offset [] k fits h = refl
front-prefix offset (front ∷ rest) k fits h = sym (
    ap (take k) (drop-append_le offset front (join rest) (omega arith))
    ∙ take-append_le k (drop offset front) (join rest) (omega (arith, length-drop offset front)))

pub size_sub_le : (a b : ℕ) → b ≤ a → size_sub a b ≡ a - b
size_sub_le a b h = ground arith

OffsetFits-zero : (chunks : List (List ℕ)) → AllFilled chunks → OffsetFits 0 chunks
OffsetFits-zero [] filled = refl
OffsetFits-zero (front ∷ rest) filled = filled.0

advance_parts :
    (chunks : List (List ℕ)) (offset bytes limit count : ℕ)
    → let out : Outgoing = record {
      chunks = chunks;
      front_offset = offset;
      bytes = bytes;
      limit = limit;
    } in
      IsQueue out
      → 0 < count
      → count ≤ length (front_of chunks) - offset
      → IsQueue (advance count out)
        × (contents (advance count out) ≡ drop count (contents out))
        × ((advance count out).bytes + count ≡ bytes)
advance_parts [] offset bytes limit count q more h = absurd (omega arith)
advance_parts (front ∷ rest) offset bytes limit count q more h =
    elim (Bool-cases (offset + count == length front)) [
      | inl whole ↦
          let e : offset + count ≡ length front = ==→eq (offset + count) (length front) whole in
          let below : count ≤ bytes = within in
          rw (whole, size_sub_le bytes count within)
            (
              record {
                counted = omega (arith, total);
                fits = OffsetFits-zero rest q.filled.1;
                filled = q.filled.1;
                bounded = omega arith;
                representable = q.representable;
              },
              sym (
                  drop-drop count offset (front ++ join rest)
                  ∙ ap (λ n. drop n (front ++ join rest)) e
                  ∙ drop-append_length front (join rest)),
              omega (arith, within),
            )
      | inr part ↦
          let e : offset + count ≢ length front = ==→ne (offset + count) (length front) part in
          let below : count ≤ bytes = within in
          rw (part, size_sub_le bytes count within)
            (
              record {
                counted = omega arith;
                fits = omega arith;
                filled = q.filled;
                bounded = omega arith;
                representable = q.representable;
              },
              sym (drop-drop count offset (front ++ join rest)),
              omega arith,
            )
    ]
  where
    total : bytes + offset ≡ length front + length (join rest)
    total = q.counted ∙ length-append front (join rest)

    within : count ≤ bytes
    within = omega (arith, total)

-- Sending a part of what the front chunk has left takes that many bytes off the contents.
pub advance_lem :
    (count : ℕ) (out : Outgoing)
    → IsQueue out
    → 0 < count
    → count ≤ length (front_of out.chunks) - out.front_offset
    → IsQueue (advance count out)
      × (contents (advance count out) ≡ drop count (contents out))
      × ((advance count out).bytes + count ≡ out.bytes)
advance_lem count out = advance_parts out.chunks out.front_offset out.bytes out.limit count
