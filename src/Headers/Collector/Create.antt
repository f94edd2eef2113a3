-- ===== src/Headers/Collector/Create.antt =====
-- cbits/headers.c: how a collector begins, and the copy of its completed block.
use hcurl.Prelude.{
  ℕ, suc, ◌+◌, ◌≤◌, ◌<◌, ◌≡◌, refl, sym, ap, ◌∙◌, ◌⊎◌, inl, inr, Bool, false, not, ◌&&◌, [], ◌∷◌,
  ◌++◌, none, some, arith, length, take-all, size_max, add_size, Bool-cases, Option-cases,
}
use hcurl.Memory.{Block, Allocator, ◌>>=◌, load_lem, store_lem}
use hcurl.Headers.Buffer
use hcurl.Headers.Buffer.{Buffer}
use hcurl.Headers.Collector.{
  HeaderData, first_capacity, initial, fresh, create, Snapshot, copy_text, snapshot,
}
use hcurl.Headers.Collector.Invariant.{IsValid}

fresh_lem :
    (block : Block) (capacity : ℕ)
    → length block ≡ capacity
    → 0 < capacity
    → capacity ≤ size_max
    → (b : Buffer) × (fresh block capacity ≡ some b) × Buffer.IsValid b × (b.size ≡ 0)
unfolding fresh
fresh_lem block capacity e pos fits =
    let (b, run, st) = store_lem block 0 (0 ∷ []) (omega arith) in
    (
      record { block = b; size = 0; capacity = capacity },
      rw run refl,
      record { extent = st.size ∙ e; room = pos; fits = fits; ended = st.written 1 refl },
      refl,
    )

first_capacity_bounds :
    (capacity : ℕ)
    → capacity ≤ size_max
    → (0 < first_capacity capacity) × (first_capacity capacity ≤ size_max)
first_capacity_bounds capacity small = ground arith

-- `header_data_create` writes nothing outside its blocks: it returns null, or a valid collector
-- that has collected nothing, is not ready, and has no waiter.
pub create-HeaderData :
    (first second : Allocator) (setup_ok : Bool) (capacity : ℕ)
    → capacity ≤ size_max
    → (create first second setup_ok capacity ≡ some none)
      ⊎ ((h : HeaderData) × (create first second setup_ok capacity ≡ some (some h))
          × IsValid h
          × (h.completed.size ≡ 0)
          × (h.in_block ≡ false)
          × (h.ready ≡ false)
          × (h.waiter.present ≡ false))
unfolding create
create-HeaderData first second setup_ok capacity small =
    let size = first_capacity capacity in
    let (pos, fits) = first_capacity_bounds capacity small in
    elim (Option-cases (first.malloc size)) [
      | inl e ↦ inl (rw (create, e) refl)
      | inr (a, e) ↦ elim (Option-cases (second.malloc size)) [
        | inl f ↦ inl (rw (create, e, f) refl)
        | inr (b, f) ↦
            let (current, run, cv, cs) = fresh_lem a size (first.malloc_size size a e) pos fits in
            let (completed, run', dv, ds) =
              fresh_lem b size (second.malloc_size size b f) pos fits in
            elim (Bool-cases setup_ok) [
              | inr no_mutex ↦ inl (rw (create, e, f, no_mutex) refl)
              | inl mutex ↦ inr (
                initial current completed,
                rw (create, e, f, mutex, run, run') refl,
                record { current = cv; completed = dv; flags = ground arith },
                ds,
                refl,
                refl,
                refl,
              )
            ]
      ]
    ]

copy_text_lem :
    (block : Block) {b : Buffer}
    → Buffer.IsValid b
    → length block ≡ b.size + 1
    → copy_text block b ≡ some (Buffer.text b ++ (0 ∷ []))
unfolding copy_text
copy_text_lem block {b} v room =
    let size = Buffer.length-text v in
    let (filled, run, st) = store_lem block 0 (Buffer.text b) (omega arith) in
    let (ended, run', st') = store_lem filled b.size (0 ∷ []) (omega (arith, st.size)) in
    rw (load_lem b.size b.block (omega (arith, v.room)), ◌>>=◌, run) run'
    ∙ ap some (
        sym (take-all (suc b.size) ended (omega (arith, st.size, st'.size)))
        ∙ st'.written (suc b.size) (omega arith)
        ∙ ap (λ t. t ++ (0 ∷ [])) (st.written b.size (omega arith)))

-- `header_data_snapshot` reads and writes within its blocks: it fails only for want of memory, and
-- else returns the completed block, with its zero behind it, its length and its status.
pub snapshot_lem :
    (alloc : Allocator) {h : HeaderData}
    → IsValid h
    → ((snapshot alloc h ≡ some none) × (alloc.malloc (h.completed.size + 1) ≡ none))
      ⊎ ((s : Snapshot) × (snapshot alloc h ≡ some (some s))
          × (s.buffer ≡ Buffer.text h.completed ++ (0 ∷ []))
          × (s.length ≡ length (Buffer.text h.completed))
          × (s.status_code ≡ h.completed_status)
          × (s.terminal_before_response ≡ h.transfer_completed && not h.response_available)
          × (s.terminal_code ≡ h.terminal_code))
unfolding snapshot
snapshot_lem alloc {h} v =
    let wrap : add_size h.completed.size 1 ≡ h.completed.size + 1 =
      omega (arith, v.completed.room) in
    elim (Option-cases (alloc.malloc (h.completed.size + 1))) [
      | inl e ↦ inl (rw (snapshot, wrap, e) refl, e)
      | inr (block, e) ↦ inr (
        record {
          buffer = Buffer.text h.completed ++ (0 ∷ []);
          length = h.completed.size;
          status_code = h.completed_status;
          terminal_before_response = h.transfer_completed && not h.response_available;
          terminal_code = h.terminal_code;
        },
        rw
            (
              snapshot,
              wrap,
              e,
              copy_text_lem block v.completed (alloc.malloc_size (h.completed.size + 1) block e),
            )
            refl,
        refl,
        sym (Buffer.length-text v.completed),
        refl,
        refl,
        refl,
      )
    ]
