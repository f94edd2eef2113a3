-- ===== src/Stream/Ring.antt =====
-- cbits/stream.c: the array of chunks as a queue, and what the helpers under the mutex do to it.
use native.Mathlib.Nat.{mod-add-mod, mod-lt}
use mathlib.Core.Path.{subst, ap₂}
use mathlib.Core.List.{append_assoc}
use hcurl.Prelude.{
  ℕ, zero, suc, ◌+◌, ◌-◌, ◌/◌, ◌%◌, ◌≤◌, ◌<◌, ◌≡◌, refl, sym, ap, ◌∙◌, true, List, [], ◌∷◌, ◌++◌,
  some, arith, size_max, add_size, get_or, set, length, length-set, drop,
}
use hcurl.Ring.{window, window_congr, window-set_end, window-set_before}
use hcurl.Stream.State.{
  Chunk, null_chunk, bytes_of, Kind, is_download, Stream, chunk_size, push_chunk, head_chunk,
  pop_chunk,
}

-- A chunk in the queue owns its bytes, some of which are unread; a reader takes whole chunks.
pub record IsLive (kind : Kind) (c : Chunk) : Type 0 where
  pub owns : length (bytes_of c.bytes) ≡ c.length
  pub unread : c.offset < c.length
  pub fits : c.length ≤ size_max
  pub whole : is_download kind ≡ true → c.offset ≡ 0

abbrev pub AllLive : Kind → List Chunk → Type 0
AllLive kind [] = Unit
AllLive kind (c ∷ cs) = IsLive kind c × AllLive kind cs

pub record IsRing (kind : Kind) (chunks : List Chunk) (capacity head tail count : ℕ) : Type 0 where
  pub size : length chunks ≡ capacity
  pub pos : 0 < capacity
  pub small : capacity ≤ size_max / chunk_size
  pub at_head : head < capacity
  pub room : count ≤ capacity
  pub at_tail : tail ≡ (head + count) % capacity
  pub live : AllLive kind (window null_chunk capacity chunks head count)

-- The invariant of the ring, at a stream.
abbrev pub Holds : Stream → Type 0
Holds s = IsRing s.kind s.chunks s.capacity s.head s.tail s.count

-- The chunks in the queue, first in first.
abbrev pub contents : Stream → List Chunk
contents s = window null_chunk s.capacity s.chunks s.head s.count

-- The bytes that are queued and unread.
abbrev pub unread_bytes : List Chunk → List ℕ
unread_bytes [] = []
unread_bytes (c ∷ cs) = drop c.offset (bytes_of c.bytes) ++ unread_bytes cs

abbrev pub queued : Stream → List ℕ
queued s = unread_bytes (contents s)

pub unread_bytes-append :
    (xs ys : List Chunk) → unread_bytes (xs ++ ys) ≡ unread_bytes xs ++ unread_bytes ys
unread_bytes-append [] ys = refl
unread_bytes-append (c ∷ cs) ys =
    ap (λ t. drop c.offset (bytes_of c.bytes) ++ t) (unread_bytes-append cs ys)
    ∙ sym (append_assoc (drop c.offset (bytes_of c.bytes)) (unread_bytes cs) (unread_bytes ys))

AllLive-append :
    (kind : Kind) (xs : List Chunk) {c : Chunk}
    → AllLive kind xs
    → IsLive kind c
    → AllLive kind (xs ++ (c ∷ []))
AllLive-append kind [] l c = (c, tt)
AllLive-append kind (x ∷ xs) (k, l) c = (k, AllLive-append kind xs l c)

-- The index behind `i` does not wrap around, but for the ring.
pub next_index :
    (i capacity : ℕ) → i < capacity → capacity ≤ size_max / chunk_size → add_size i 1 ≡ i + 1
next_index i capacity h small = omega arith

next_start :
    (slots : List Chunk) (capacity i n : ℕ)
    → 0 < capacity
    → window null_chunk capacity slots ((i + 1) % capacity) n
      ≡ window null_chunk capacity slots (i + 1) n
next_start slots capacity i n pos =
    window_congr null_chunk capacity slots ((i + 1) % capacity) (i + 1) n (grind arith)

pub small_mod : (i capacity : ℕ) → i < capacity → i % capacity ≡ i
small_mod i capacity h = grind arith

push_slot :
    (kind : Kind) (chunks : List Chunk) (capacity head tail count : ℕ) (c : Chunk)
    → IsRing kind chunks capacity head tail count
    → count < capacity
    → IsLive kind c
    → IsRing kind (set chunks tail c) capacity head ((tail + 1) % capacity) (suc count)
      × (window null_chunk capacity (set chunks tail c) head (suc count)
          ≡ window null_chunk capacity chunks head count ++ (c ∷ []))
push_slot kind chunks capacity head tail count c r free l =
    let extended : window null_chunk capacity (set chunks tail c) head (suc count)
        ≡ window null_chunk capacity chunks head count ++ (c ∷ []) =
      ap (λ t. window null_chunk capacity (set chunks t c) head (suc count)) r.at_tail
      ∙ window-set_end null_chunk capacity chunks c head (head + count) count r.pos r.size refl
          free in
    (
      record {
        size = length-set chunks tail c ∙ r.size;
        pos = r.pos;
        small = r.small;
        at_head = r.at_head;
        room = omega arith;
        at_tail =
            ap (λ t. (t + 1) % capacity) r.at_tail
            ∙ mod-add-mod (head + count) capacity 1
            ∙ ap (λ t. t % capacity) (omega arith);
        live =
            subst (AllLive kind) (sym extended)
              (AllLive-append kind (window null_chunk capacity chunks head count) r.live l);
      },
      extended,
    )

-- The first slot is given up.
pop_slot :
    (kind : Kind) (chunks : List Chunk) (capacity head tail n : ℕ)
    → IsRing kind chunks capacity head tail (suc n)
    → IsRing kind (set chunks head null_chunk) capacity ((head + 1) % capacity) tail n
      × IsLive kind (get_or chunks head null_chunk)
      × (window null_chunk capacity chunks head (suc n)
          ≡ get_or chunks head null_chunk
            ∷ window null_chunk capacity (set chunks head null_chunk) ((head + 1) % capacity) n)
pop_slot kind chunks capacity head tail n r =
    let inside : head % capacity ≡ head = small_mod head capacity r.at_head in
    let first = ap (λ k. get_or chunks k null_chunk) inside in
    let behind : window null_chunk capacity (set chunks head null_chunk) ((head + 1) % capacity) n
        ≡ window null_chunk capacity chunks (head + 1) n =
      next_start (set chunks head null_chunk) capacity head n r.pos
      ∙ ap (λ k. window null_chunk capacity (set chunks k null_chunk) (head + 1) n) (sym inside)
      ∙ window-set_before null_chunk capacity chunks null_chunk head (head + 1) n (omega arith)
          (omega (arith, r.room)) in
    (
      record {
        size = length-set chunks head null_chunk ∙ r.size;
        pos = r.pos;
        small = r.small;
        at_head = mod-lt (head + 1) r.pos;
        room = omega (arith, r.room);
        at_tail =
            r.at_tail
            ∙ ap (λ t. t % capacity) (omega arith)
            ∙ sym (mod-add-mod (head + 1) capacity n);
        live = subst (AllLive kind) (sym behind) r.live.1;
      },
      subst (IsLive kind) first r.live.0,
      ap₂ ◌∷◌ first (sym behind),
    )

-- A chunk at the tail comes last.
pub push_chunk-contents :
    (s : Stream) (bytes : List ℕ) (n : ℕ)
    → Holds s
    → s.count < s.capacity
    → length bytes ≡ n
    → 0 < n
    → n ≤ size_max
    → Holds (push_chunk bytes n s)
      × (contents (push_chunk bytes n s)
          ≡ contents s ++ (record { bytes = some bytes; length = n; offset = 0 } ∷ []))
unfolding push_chunk
push_chunk-contents s bytes n r free e pos fits =
    let tail_below : s.tail < s.capacity =
      subst (λ t. t < s.capacity) (sym r.at_tail) (mod-lt (s.head + s.count) r.pos) in
    let next_tail : add_size s.tail 1 ≡ s.tail + 1 =
      next_index s.tail s.capacity tail_below r.small in
    let next_count : add_size s.count 1 ≡ suc s.count = omega (arith, r.small) in
    rw (next_tail, next_count)
      (push_slot s.kind s.chunks s.capacity s.head s.tail s.count
        (record { bytes = some bytes; length = n; offset = 0 }) r free
        (record { owns = e; unread = pos; fits = fits; whole = λ d. refl }))

pop_at :
    (s : Stream) (count : ℕ)
    → IsRing s.kind s.chunks s.capacity s.head s.tail count
    → 0 < count
    → IsRing s.kind
        (set s.chunks s.head null_chunk)
        s.capacity
        (add_size s.head 1 % s.capacity)
        s.tail
        (count - 1)
      × IsLive s.kind (head_chunk s)
      × (window null_chunk s.capacity s.chunks s.head count
          ≡ head_chunk s
            ∷ window null_chunk s.capacity
                (set s.chunks s.head null_chunk)
                (add_size s.head 1 % s.capacity)
                (count - 1))
pop_at s zero r pos = absurd (omega arith)
pop_at s (suc n) r pos =
    let next : add_size s.head 1 ≡ s.head + 1 = next_index s.head s.capacity r.at_head r.small in
    let fewer : suc n - 1 ≡ n = omega arith in
    rw (next, fewer) (pop_slot s.kind s.chunks s.capacity s.head s.tail n r)

-- The chunk at the head came first.
pub pop_chunk-contents :
    (s : Stream)
    → Holds s
    → 0 < s.count
    → Holds (pop_chunk s)
      × IsLive s.kind (head_chunk s)
      × (contents s ≡ head_chunk s ∷ contents (pop_chunk s))
unfolding pop_chunk
pop_chunk-contents s r some_left = pop_at s s.count r some_left
