-- ===== src/Headers/Collector/Blocks.antt =====
-- cbits/headers.c: what the collector holds after a whole header block, given line by line.
use mathlib.Core.List.{append-nil, append_assoc}
use hcurl.Prelude.{
  ℕ, ◌+◌, ◌<◌, ◌≡◌, refl, sym, ap, ◌∙◌, true, false, List, [], ◌∷◌, ◌++◌, Option, none, some, arith,
  length, length-append, concat, ◌==◌, ==_iff, if◌then◌else◌, size_max,
}
use hcurl.Memory.{Allocator, ◌>>=◌}
use mathlib.Core.Path.{ap₂}
use hcurl.Waker.{Put, Slot}
use hcurl.Headers.Lines.{is_status_line, parse_status, is_blank_line}
use hcurl.Headers.Buffer
use hcurl.Headers.Buffer.{Buffer, IsGenerous}
use hcurl.Headers.Collector.{HeaderData, publish_early, publish, finish_block, block_line, callback}
use hcurl.Headers.Collector.Invariant.{IsValid, IsValid-current, pending, consumed}
use hcurl.Headers.Collector.Fields.{
  callback-line, blank_line_shape, accept_line-inside, start_block-other, callback-status_line,
  callback-field, AreFields, InBlock,
}

-- libcurl hands the lines over one by one, and gives up when one is not taken whole: `none`.
unfoldable pub feed : Allocator → List (List ℕ) → HeaderData → Option (List Put × HeaderData)
feed alloc [] h = some ([], h)
feed alloc (line ∷ lines) h = callback alloc line 1 (length line) h >>= λ r.
    if r.0 == length line then (feed alloc lines r.2 >>= λ q. some (r.1 ++ q.0, q.1)) else none

-- A block with the text `t` has been completed: it alone is what `completed` holds; it is
-- published, and the waiter woken, exactly if its status says that it is the final one.
pub record Completed (h : HeaderData) (t : List ℕ) (status : ℕ) (puts : List Put) (g : HeaderData)
    : Type 0 where
  pub valid : IsValid g
  pub outside : g.in_block ≡ false
  pub text : Buffer.text g.completed ≡ t
  pub status_kept : g.completed_status ≡ status
  pub woken : consumed puts ≡ (if publish_early status t then pending h else [])
  pub ready : g.ready ≡ (if publish_early status t then true else h.ready)
  pub available :
      g.response_available ≡ (if publish_early status t then true else h.response_available)

publish-own :
    (g : HeaderData) {emptied : Buffer}
    → IsValid g
    → Buffer.IsValid emptied
    → Completed g
        (Buffer.text g.current)
        g.current_status
        (publish g emptied).0
        (publish g emptied).1
unfolding publish
publish-own g v e = ground arith

publish-Completed :
    {h g : HeaderData} {t : List ℕ} {status : ℕ} {emptied : Buffer}
    → InBlock h t status g
    → Buffer.IsValid emptied
    → Completed h t status (publish g emptied).0 (publish g emptied).1
publish-Completed {h} {g} {t} {status} {emptied} i e =
    let own = publish-own g i.valid e in
    let early : publish_early g.current_status (Buffer.text g.current) ≡ publish_early status t =
      ap₂ publish_early i.status_read i.text in
    record {
      valid = own.valid;
      outside = own.outside;
      text = own.text ∙ i.text;
      status_kept = own.status_kept ∙ i.status_read;
      woken =
          own.woken
          ∙ ap₂ (λ c (w : Slot). if c then (if w.present then w.waker.mvar ∷ [] else []) else [])
              early i.same_waiter;
      ready = own.ready ∙ ap₂ (λ c r. if c then true else r) early i.same_ready;
      available = own.available ∙ ap₂ (λ c r. if c then true else r) early i.same_available;
    }

-- The blank line of a block.
callback-blank :
    (alloc : Allocator) (line : List ℕ) {h g : HeaderData} {t : List ℕ} {status : ℕ}
    → IsGenerous alloc
    → is_blank_line line ≡ true
    → InBlock h t status g
    → length t + length line < size_max
    → (puts : List Put) × (g' : HeaderData) × (callback alloc line 1 (length line) g
        ≡ some (length line, puts, g'))
      × Completed h (t ++ line) status puts g'
unfolding block_line finish_block
callback-blank alloc line {h} {g} {t} {status} generous blank i small =
    let (other, pos) = blank_line_shape line blank in
    let sizes = sym (Buffer.length-text i.valid.current) ∙ ap length i.text in
    let (b, run, ext) = Buffer.append-Extended alloc line generous i.valid.current (omega arith) in
    let g₁ : HeaderData = record g { current = b } in
    let (emptied, run', e, _) = Buffer.clear_lem i.valid.completed in
    let inside : InBlock h (t ++ line) status g₁ = record {
      valid = IsValid-current g.current_status g.in_block i.valid ext.valid;
      inside = i.inside;
      text = ext.appended ∙ ap (λ s. s ++ line) i.text;
      status_read = i.status_read;
      same_completed = i.same_completed;
      same_ready = i.same_ready;
      same_available = i.same_available;
      same_waiter = i.same_waiter;
    } in
    (
      (publish g₁ emptied).0,
      (publish g₁ emptied).1,
      callback-line alloc line g pos (omega arith)
          ∙ rw
              (
                start_block-other line g other,
                ◌>>=◌,
                accept_line-inside alloc line (length line) g i.inside,
                run,
                blank,
                run',
              )
              refl,
      publish-Completed inside e,
    )

-- The fields of a block, and the blank line that ends it.
feed-rest :
    (alloc : Allocator) (fields : List (List ℕ)) (blank : List ℕ) {h g : HeaderData} {t : List ℕ}
    {status : ℕ}
    → IsGenerous alloc
    → AreFields fields
    → is_blank_line blank ≡ true
    → InBlock h t status g
    → length t + length (concat (fields ++ (blank ∷ []))) < size_max
    → (puts : List Put) × (g' : HeaderData) × (feed alloc (fields ++ (blank ∷ [])) g
        ≡ some (puts, g'))
      × Completed h (t ++ concat (fields ++ (blank ∷ []))) status puts g'
unfolding feed
feed-rest alloc [] blank {h} {g} {t} {status} generous fields b i small =
    let (puts, g', run, done) =
      callback-blank alloc blank generous b i (omega (arith, length-append blank [])) in
    (
      puts,
      g',
      rw (run, ◌>>=◌, (==_iff (length blank) (length blank)).1 refl, append-nil puts) refl,
      rw (append-nil blank) done,
    )
feed-rest alloc (line ∷ lines) blank {h} {g} {t} {status} generous fields b i small =
    let rest = concat (lines ++ (blank ∷ [])) in
    let total = length-append line rest in
    let (g₁, run, i₁) = callback-field alloc line generous fields.0 i (omega arith) in
    let (puts, g', run', done) =
      feed-rest alloc lines blank generous fields.1 b i₁ (omega (arith, length-append t line)) in
    (
      puts,
      g',
      rw (run, ◌>>=◌, (==_iff (length line) (length line)).1 refl, run') refl,
      rw (← append_assoc t line rest) done,
    )

-- A whole block, a status line, fields and a blank line, given line by line to a valid collector
-- that gets the memory it asks for: every line is taken whole, whatever was collected before;
-- afterwards `completed` holds the lines of this block and nothing else, under the status of its
-- first line; and it is published, with the waiter woken, exactly if `publish_early` holds of it.
pub feed-Completed :
    (alloc : Allocator) (status_line : List ℕ) (fields : List (List ℕ)) (blank : List ℕ)
    {h : HeaderData}
    → IsGenerous alloc
    → IsValid h
    → is_status_line status_line ≡ true
    → AreFields fields
    → is_blank_line blank ≡ true
    → length (concat (status_line ∷ fields ++ (blank ∷ []))) < size_max
    → (puts : List Put) × (g : HeaderData) × (feed alloc (status_line ∷ fields ++ (blank ∷ [])) h
        ≡ some (puts, g))
      × Completed h
          (concat (status_line ∷ fields ++ (blank ∷ [])))
          (parse_status status_line)
          puts
          g
unfolding feed
feed-Completed alloc line fields blank {h} generous v s f b small =
    let total = length-append line (concat (fields ++ (blank ∷ []))) in
    let (g₁, run, i) = callback-status_line alloc line generous v s (omega arith) in
    let (puts, g, run', done) = feed-rest alloc fields blank generous f b i (omega arith) in
    (puts, g, rw (run, ◌>>=◌, (==_iff (length line) (length line)).1 refl, run') refl, done)
