-- ===== src/Stream/Drain.antt =====
-- cbits/stream.c: what libcurl's read callback takes from the chunk at the head, and what
-- `drop_chunks_locked` does to the ring.
use native.Mathlib.Nat.{mod-lt}
use mathlib.Core.Path.{subst}
use mathlib.Core.List.{append_assoc, append-nil}
use hcurl.Prelude.{
  ℕ, zero, suc, ◌+◌, ◌-◌, ◌%◌, ◌≤◌, ◌<◌, ◌≡◌, refl, sym, ap, ◌∙◌, false, List, ◌∷◌, ◌++◌, arith,
  add_size, get_or, set, ==_iff, ◌⊎◌, length, length-set, take, drop, take-append-drop, drop-drop,
  drop-all, ◌==◌, Bool-cases, inl, inr, true-ne-false,
}
use hcurl.Ring.{window, window-set_start}
use hcurl.Stream.State.{
  Chunk, null_chunk, bytes_of, is_download, Stream, head_chunk, pop_chunk, drop_loop, drop_chunks,
}
use hcurl.Stream.Upload.{consume}
use hcurl.Stream.Ring.{
  IsLive, IsRing, Holds, AllLive, queued, unread_bytes, pop_chunk-contents, small_mod,
}

-- The unread bytes of a chunk, in two parts.
unread-split :
    (c : Chunk) (k : ℕ)
    → drop c.offset (bytes_of c.bytes)
      ≡ take k (drop c.offset (bytes_of c.bytes)) ++ drop (c.offset + k) (bytes_of c.bytes)
unread-split c k =
    sym (take-append-drop k (drop c.offset (bytes_of c.bytes)))
    ∙ ap (λ t. take k (drop c.offset (bytes_of c.bytes)) ++ t)
        (drop-drop k c.offset (bytes_of c.bytes))

-- The chunk at the head is read on to another offset.
advance_at :
    (s : Stream) (count offset : ℕ)
    → IsRing s.kind s.chunks s.capacity s.head s.tail count
    → 0 < count
    → is_download s.kind ≡ false
    → offset < (head_chunk s).length
    → let c : Chunk = record (head_chunk s) { offset = offset } in
      IsRing s.kind (set s.chunks s.head c) s.capacity s.head s.tail count
      × (rest : List Chunk) × (window null_chunk s.capacity s.chunks s.head count
          ≡ head_chunk s ∷ rest)
      × (window null_chunk s.capacity (set s.chunks s.head c) s.head count ≡ c ∷ rest)
advance_at s zero offset r pos up h = absurd (omega arith)
advance_at s (suc n) offset r pos up h =
    let c : Chunk = record (head_chunk s) { offset = offset } in
    let inside = small_mod s.head s.capacity r.at_head in
    let first = ap (λ k. get_or s.chunks k null_chunk) inside in
    let rest = window null_chunk s.capacity s.chunks (s.head + 1) n in
    let l : IsLive s.kind (head_chunk s) = subst (IsLive s.kind) first r.live.0 in
    let written : window null_chunk s.capacity (set s.chunks s.head c) s.head (suc n) ≡ c ∷ rest =
      ap (λ k. window null_chunk s.capacity (set s.chunks k c) s.head (suc n)) (sym inside)
      ∙ window-set_start null_chunk s.capacity s.chunks c s.head n r.pos r.size
          (omega (arith, r.room)) in
    (
      record {
        size = length-set s.chunks s.head c ∙ r.size;
        pos = r.pos;
        small = r.small;
        at_head = r.at_head;
        room = r.room;
        at_tail = r.at_tail;
        live = subst (AllLive s.kind) (sym written) (
          record {
            owns = l.owns;
            unread = h;
            fits = l.fits;
            whole = λ d. true-ne-false (sym d ∙ up);
          },
          r.live.1,
        );
      },
      rest,
      ap (λ k. k ∷ rest) first,
      written,
    )

-- What `consume` leaves: the ring with the chunk given up, or with another chunk in its place.
pub record Consumed (k : ℕ) (s s' : Stream) : Type 0 where
  pub ring : Holds s'
  pub bytes :
      queued s ≡ take k (drop (head_chunk s).offset (bytes_of (head_chunk s).bytes)) ++ queued s'
  pub shape : (s' ≡ pop_chunk s) ⊎ ((chunks : List Chunk) × (s' ≡ record s { chunks = chunks }))

-- `consume` takes the next bytes of the queue.
pub consume-Consumed :
    (k : ℕ) (s : Stream)
    → Holds s
    → 0 < s.count
    → is_download s.kind ≡ false
    → k ≤ (head_chunk s).length - (head_chunk s).offset
    → Consumed k s (consume k s)
unfolding consume
consume-Consumed k s r some_left up within =
    let (popped, l, split) = pop_chunk-contents s r some_left in
    let head = head_chunk s in
    let sum : add_size head.offset k ≡ head.offset + k = omega (arith, l.unread, l.fits) in
    let behind = unread-split head k in
    elim (Bool-cases ((head.offset + k) == head.length)) [
      | inl e ↦
          rw (sum, e)
            (record {
              ring = popped;
              bytes =
                  ap unread_bytes split
                  ∙ ap (λ t. t ++ queued (pop_chunk s))
                      (behind
                        ∙ ap (λ t. take k (drop head.offset (bytes_of head.bytes)) ++ t)
                            (drop-all (head.offset + k) (bytes_of head.bytes)
                              (omega (arith, l.owns, (==_iff (head.offset + k) head.length).0 e)))
                        ∙ append-nil (take k (drop head.offset (bytes_of head.bytes))));
              shape = inl refl;
            })
      | inr e ↦
          let (ring, rest, before, after) =
            advance_at s s.count (head.offset + k) r some_left up (ground arith) in
          rw (sum, e)
            (record {
              ring = ring;
              bytes =
                  ap unread_bytes before
                  ∙ ap (λ t. t ++ unread_bytes rest) behind
                  ∙ append_assoc (take k (drop head.offset (bytes_of head.bytes)))
                      (drop (head.offset + k) (bytes_of head.bytes)) (unread_bytes rest)
                  ∙ ap (λ t. take k (drop head.offset (bytes_of head.bytes)) ++ t)
                      (sym (ap unread_bytes after));
              shape = inr (set s.chunks s.head (record head { offset = head.offset + k }), refl);
            })
    ]

loop_lem :
    (count capacity : ℕ) (chunks : List Chunk) (head : ℕ)
    → 0 < capacity
    → head < capacity
    → (length (drop_loop count capacity chunks head).0 ≡ length chunks)
      × ((drop_loop count capacity chunks head).1 < capacity)
unfolding drop_loop
loop_lem zero capacity chunks head pos h = (refl, h)
loop_lem (suc count) capacity chunks head pos h =
    let (same, inside) =
      loop_lem count capacity (set chunks head null_chunk) (add_size head 1 % capacity) pos
        (mod-lt (add_size head 1) pos) in
    (same ∙ length-set chunks head null_chunk, inside)

-- Afterwards the ring is empty.
pub drop_chunks-Holds : (s : Stream) → Holds s → Holds (drop_chunks s) × ((drop_chunks s).count ≡ 0)
unfolding drop_chunks
drop_chunks-Holds s r =
    let (same, inside) = loop_lem s.count s.capacity s.chunks s.head r.pos r.at_head in
    (
      record {
        size = same ∙ r.size;
        pos = r.pos;
        small = r.small;
        at_head = inside;
        room = omega arith;
        at_tail =
            sym (small_mod (drop_loop s.count s.capacity s.chunks s.head).1 s.capacity inside)
            ∙ ap (λ t. t % s.capacity) (omega arith);
        live = tt;
      },
      refl,
    )
