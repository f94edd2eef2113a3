-- ===== src/Headers/Collector/Invariant.antt =====
-- cbits/headers.c: every operation of the collector stays inside its buffers and keeps the
-- invariant that ties the flags to the waiter.
use hcurl.Prelude.{
  ℕ, ◌*◌, ◌≤◌, ◌≡◌, ◌≢◌, refl, ◌∙◌, ◌⊎◌, inl, inr, Bool, true, false, List, [], ◌∷◌, ◌++◌, Option,
  some, arith, length, take, ltb, ◌==◌, if◌then◌else◌, size_max, mul_size, product_overflows,
  product_overflows_lem, Bool-cases,
}
use hcurl.Memory.{Allocator, ◌>>=◌, load_lem}
use hcurl.Waker.{Slot, Put}
use hcurl.Headers.Lines.{is_status_line, parse_status, is_blank_line}
use hcurl.Headers.Buffer
use hcurl.Headers.Buffer.{Buffer}
use hcurl.Headers.Collector.{
  HeaderData, publish, finish_block, start_block, block_line, trailer_line, accept_line, callback,
  wait, cancel_wait, mark_ready, mark_complete,
}

-- A registered waiter can be woken.
abbrev pub CanWake : Slot → Type 0
CanWake s = s.present ≡ true → (s.waker.mvar ≢ 0) × (s.waker.waked ≡ false)

-- What the flags promise: nobody waits once the headers are ready, and what is published or
-- complete is ready.
pub record Flags (h : HeaderData) : Type 0 where
  pub no_waiter : h.ready ≡ true → h.waiter.present ≡ false
  pub wakes : CanWake h.waiter
  pub published : h.response_available ≡ true → h.ready ≡ true
  pub finished : h.transfer_completed ≡ true → h.ready ≡ true

pub record IsValid (h : HeaderData) : Type 0 where
  pub current : Buffer.IsValid h.current
  pub completed : Buffer.IsValid h.completed
  pub flags : Flags h

-- The line that is being collected bears on no flag.
pub IsValid-current :
    {h : HeaderData} {b : Buffer} (status : ℕ) (inside : Bool)
    → IsValid h
    → Buffer.IsValid b
    → IsValid (record h { current = b; current_status = status; in_block = inside })
IsValid-current status inside v b = ground arith

-- The pointer of a waiter that is registered.
abbrev pub pending : HeaderData → List ℕ
pending h = if h.waiter.present then h.waiter.waker.mvar ∷ [] else []

-- The pointers that wake-ups consume.
abbrev pub consumed : List Put → List ℕ
consumed [] = []
consumed ((capability, mvar) ∷ puts) = mvar ∷ consumed puts

-- The state after an operation is valid, its waiter is the old one unless that was woken, and
-- what is ready stays ready.
pub record Kept (h : HeaderData) (puts : List Put) (h' : HeaderData) : Type 0 where
  pub valid : IsValid h'
  pub conserved : pending h ≡ consumed puts ++ pending h'
  pub stays_ready : h.ready ≡ true → h'.ready ≡ true

pub Kept-refl : {h : HeaderData} → IsValid h → Kept h [] h
Kept-refl v = record { valid = v; conserved = refl; stays_ready = λ r. r }

-- `header_data_wait` keeps the invariant.
pub wait-IsValid :
    (mvar capability : ℕ) {h : HeaderData} → IsValid h → IsValid (wait mvar capability h).1
unfolding wait
wait-IsValid mvar capability v = ground arith

-- `header_data_cancel_wait` keeps the invariant.
pub cancel_wait-IsValid : (mvar : ℕ) {h : HeaderData} → IsValid h → IsValid (cancel_wait mvar h).1
unfolding cancel_wait
cancel_wait-IsValid mvar v = ground arith

pub mark_ready-Kept :
    (available : Bool) {h : HeaderData}
    → IsValid h
    → Kept h (mark_ready available h).0 (mark_ready available h).1
unfolding mark_ready
mark_ready-Kept available v = ground arith

pub mark_complete-Kept :
    (code : ℕ) {h : HeaderData}
    → IsValid h
    → Kept h (mark_complete code h).0 (mark_complete code h).1
unfolding mark_complete
mark_complete-Kept code v = ground arith

pub publish-Kept :
    (h : HeaderData) {emptied : Buffer}
    → IsValid h
    → Buffer.IsValid emptied
    → Kept h (publish h emptied).0 (publish h emptied).1
unfolding publish
publish-Kept h v e = ground arith

finish_block-Kept :
    {h : HeaderData}
    → IsValid h
    → (r : List Put × HeaderData) × (finish_block h ≡ some r) × Kept h r.0 r.1
unfolding finish_block
finish_block-Kept {h} v =
    let (emptied, run, e, _) = Buffer.clear_lem v.completed in
    (publish h emptied, rw run refl, publish-Kept h v e)

start_block-Kept :
    (line : List ℕ) {h : HeaderData}
    → IsValid h
    → (h' : HeaderData) × (start_block line h ≡ some h') × Kept h [] h'
unfolding start_block
start_block-Kept line {h} v = elim (Bool-cases (is_status_line line)) [
  | inr e ↦ (h, rw e refl, Kept-refl v)
  | inl e ↦
      let (emptied, run, c, _) = Buffer.clear_lem v.current in
      (
        record h { current = emptied; current_status = parse_status line; in_block = true },
        rw (e, run) refl,
        ground arith,
      )
]

-- The callback ends, takes the whole line or nothing, and leaves a state that is kept.
abbrev pub Handled : ℕ → HeaderData → Option (ℕ × List Put × HeaderData) → Type 0
Handled total h r =
    (n : ℕ) × (puts : List Put) × (h' : HeaderData) × (r ≡ some (n, puts, h'))
    × Kept h puts h'
    × ((n ≡ 0) ⊎ (n ≡ total))

block_line-Handled :
    (alloc : Allocator) (line : List ℕ) (total : ℕ) {h : HeaderData}
    → IsValid h
    → Handled total h (block_line alloc line total h)
unfolding block_line
block_line-Handled alloc line total {h} v = elim (Buffer.append_lem alloc line v.current) [
  | inl (run, why) ↦ (0, [], h, rw run refl, Kept-refl v, inl refl)
  | inr (b, run, ext) ↦
      let h' : HeaderData = record h { current = b } in
      let v' : IsValid h' = record {
        current = ext.valid;
        completed = v.completed;
        flags = ground arith;
      } in
      elim (Bool-cases (is_blank_line line)) [
        | inr e ↦ (total, [], h', rw (run, ◌>>=◌, e) refl, ground arith, inr refl)
        | inl e ↦
            let ((puts, h''), finished, k) = finish_block-Kept v' in
            (
              total,
              puts,
              h'',
              rw (run, ◌>>=◌, e, finished) refl,
              record { valid = k.valid; conserved = k.conserved; stays_ready = k.stays_ready },
              inr refl,
            )
      ]
]

trailer_line-Handled :
    (alloc : Allocator) (line : List ℕ) (total : ℕ) {h : HeaderData}
    → IsValid h
    → Handled total h (trailer_line alloc line total h)
unfolding trailer_line
trailer_line-Handled alloc line total {h} v = elim (Bool-cases (ltb 0 h.completed.size)) [
  | inr e ↦ (total, [], h, rw e refl, Kept-refl v, inr refl)
  | inl e ↦ elim (Buffer.append_lem alloc line v.completed) [
    | inl (run, why) ↦ (0, [], h, rw (e, run) refl, Kept-refl v, inl refl)
    | inr (b, run, ext) ↦
        (total, [], record h { completed = b }, rw (e, run) refl, ground arith, inr refl)
  ]
]

accept_line-Handled :
    (alloc : Allocator) (line : List ℕ) (total : ℕ) {h : HeaderData}
    → IsValid h
    → Handled total h (accept_line alloc line total h)
unfolding accept_line
accept_line-Handled alloc line total {h} v =
    elim h.in_block
      as (λ b.
        Handled total h
          (if b then block_line alloc line total h else trailer_line alloc line total h)) [
            | true ↦ block_line-Handled alloc line total v
            | false ↦ trailer_line-Handled alloc line total v
          ]

pub callback-Handled :
    (alloc : Allocator) (bytes : List ℕ) (size nitems : ℕ) {h : HeaderData}
    → IsValid h
    → size * nitems ≤ length bytes
    → Handled (size * nitems) h (callback alloc bytes size nitems h)
unfolding callback
callback-Handled alloc bytes size nitems {h} v enough =
    elim (Bool-cases (product_overflows size nitems)) [
      | inl e ↦ (0, [], h, rw e refl, Kept-refl v, inl refl)
      | inr e ↦
          let fits : size * nitems ≤ size_max = ground (arith, product_overflows_lem size nitems) in
          let exact : mul_size size nitems ≡ size * nitems = omega arith in
          elim (Bool-cases ((size * nitems) == 0)) [
            | inl z ↦ (0, [], h, rw (e, exact, z) refl, Kept-refl v, inl refl)
            | inr z ↦
                let line = take (size * nitems) bytes in
                let (started, run, k) = start_block-Kept line v in
                let (n, puts, h', run', k', took) =
                  accept_line-Handled alloc line (size * nitems) k.valid in
                (
                  n,
                  puts,
                  h',
                  rw (e, exact, z, load_lem (size * nitems) bytes enough, ◌>>=◌, run) run',
                  record {
                    valid = k'.valid;
                    conserved = k.conserved ∙ k'.conserved;
                    stays_ready = λ r. k'.stays_ready (k.stays_ready r);
                  },
                  took,
                )
          ]
    ]
