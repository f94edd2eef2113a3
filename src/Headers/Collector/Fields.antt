-- ===== src/Headers/Collector/Fields.antt =====
-- cbits/headers.c: `header_callback` at the lines inside a block: each line is collected.
use hcurl.Prelude.{
  ℕ, ◌+◌, ◌≤◌, ◌<◌, ◌≡◌, refl, sym, ap, ◌∙◌, true, false, List, [], ◌∷◌, ◌++◌, some, arith, length,
  take, take-all, ◌==◌, if◌then◌else◌, size_max, mul_size, product_overflows,
}
use hcurl.Memory.{Allocator, ◌>>=◌, load_lem}
use hcurl.Headers.Lines.{is_status_line, parse_status, is_blank_line}
use hcurl.Headers.Buffer
use hcurl.Headers.Buffer.{Buffer, IsGenerous}
use hcurl.Headers.Collector.{
  HeaderData, start_block, block_line, trailer_line, accept_line, callback,
}
use hcurl.Headers.Collector.Invariant.{IsValid, IsValid-current}

-- A header field: neither a status line nor a blank one, and not empty.
abbrev pub IsField : List ℕ → Type 0
IsField line = (0 < length line) × (is_status_line line ≡ false) × (is_blank_line line ≡ false)

abbrev pub AreFields : List (List ℕ) → Type 0
AreFields [] = Unit
AreFields (line ∷ lines) = IsField line × AreFields lines

pub callback-line :
    (alloc : Allocator) (line : List ℕ) (h : HeaderData)
    → 0 < length line
    → length line ≤ size_max
    → callback alloc line 1 (length line) h
      ≡ (start_block line h >>= accept_line alloc line (length line))
unfolding callback
callback-line alloc line h pos fits =
    let exact : mul_size 1 (length line) ≡ length line = omega arith in
    let passes : product_overflows 1 (length line) ≡ false = ground arith in
    let some_bytes : (length line == 0) ≡ false = ground arith in
    rw (passes, exact, some_bytes, load_lem (length line) line (omega arith))
      (ap (λ l. start_block l h >>= accept_line alloc l (length line))
        (take-all (length line) line (omega arith)))

pub status_line_shape :
    (line : List ℕ) → is_status_line line ≡ true → (is_blank_line line ≡ false) × (0 < length line)
unfolding is_status_line is_blank_line
status_line_shape [] e = cc
status_line_shape (a ∷ []) e = cc
status_line_shape (a ∷ b ∷ []) e = cc
status_line_shape (a ∷ b ∷ c ∷ r) e = (refl, omega arith)

pub blank_line_shape :
    (line : List ℕ) → is_blank_line line ≡ true → (is_status_line line ≡ false) × (0 < length line)
unfolding is_status_line is_blank_line
blank_line_shape [] e = cc
blank_line_shape (a ∷ []) e = (refl, omega arith)
blank_line_shape (a ∷ b ∷ []) e = (refl, omega arith)
blank_line_shape (a ∷ b ∷ c ∷ r) e = cc

-- The block that began at `h` has the text `t` so far; nothing else has changed.
pub record InBlock (h : HeaderData) (t : List ℕ) (status : ℕ) (g : HeaderData) : Type 0 where
  pub valid : IsValid g
  pub inside : g.in_block ≡ true
  pub text : Buffer.text g.current ≡ t
  pub status_read : g.current_status ≡ status
  pub same_completed : g.completed ≡ h.completed
  pub same_ready : g.ready ≡ h.ready
  pub same_available : g.response_available ≡ h.response_available
  pub same_waiter : g.waiter ≡ h.waiter

pub block_line-InBlock :
    (alloc : Allocator) (line : List ℕ) {h g : HeaderData} {t : List ℕ} {status : ℕ}
    → IsGenerous alloc
    → is_blank_line line ≡ false
    → InBlock h t status g
    → length t + length line < size_max
    → (g' : HeaderData) × (block_line alloc line (length line) g ≡ some (length line, [], g'))
      × InBlock h (t ++ line) status g'
unfolding block_line
block_line-InBlock alloc line {g} {t} generous e i small =
    let sizes = sym (Buffer.length-text i.valid.current) ∙ ap length i.text in
    let (b, run, ext) = Buffer.append-Extended alloc line generous i.valid.current (omega arith) in
    (
      record g { current = b },
      rw (run, ◌>>=◌, e) refl,
      record {
        valid = IsValid-current g.current_status g.in_block i.valid ext.valid;
        inside = i.inside;
        text = ext.appended ∙ ap (λ s. s ++ line) i.text;
        status_read = i.status_read;
        same_completed = i.same_completed;
        same_ready = i.same_ready;
        same_available = i.same_available;
        same_waiter = i.same_waiter;
      },
    )

pub accept_line-inside :
    (alloc : Allocator) (line : List ℕ) (total : ℕ) (h : HeaderData)
    → h.in_block ≡ true
    → accept_line alloc line total h ≡ block_line alloc line total h
unfolding accept_line
accept_line-inside alloc line total h e =
    ap (λ b. if b then block_line alloc line total h else trailer_line alloc line total h) e

pub start_block-other :
    (line : List ℕ) (h : HeaderData) → is_status_line line ≡ false → start_block line h ≡ some h
unfolding start_block
start_block-other line h e = rw e refl

-- A status line, wherever it comes, begins a block of its own.
pub start_block-InBlock :
    (line : List ℕ) {h : HeaderData}
    → IsValid h
    → is_status_line line ≡ true
    → (g : HeaderData) × (start_block line h ≡ some g) × InBlock h [] (parse_status line) g
unfolding start_block
start_block-InBlock line {h} v e =
    let (b, run, bv, size) = Buffer.clear_lem v.current in
    (
      record h { current = b; current_status = parse_status line; in_block = true },
      rw (e, run) refl,
      record {
        valid = IsValid-current (parse_status line) true v bv;
        inside = refl;
        text = ap (λ n. take n b.block) size;
        status_read = refl;
        same_completed = refl;
        same_ready = refl;
        same_available = refl;
        same_waiter = refl;
      },
    )

-- The first line of a block.
pub callback-status_line :
    (alloc : Allocator) (line : List ℕ) {h : HeaderData}
    → IsGenerous alloc
    → IsValid h
    → is_status_line line ≡ true
    → length line < size_max
    → (g : HeaderData) × (callback alloc line 1 (length line) h ≡ some (length line, [], g))
      × InBlock h line (parse_status line) g
callback-status_line alloc line {h} generous v e small =
    let (blank, pos) = status_line_shape line e in
    let (started, run, i) = start_block-InBlock line v e in
    let (g, run', i') = block_line-InBlock alloc line generous blank i (omega arith) in
    (
      g,
      callback-line alloc line h pos (omega arith)
          ∙ rw (run, ◌>>=◌, accept_line-inside alloc line (length line) started i.inside) run',
      i',
    )

-- A field line inside a block.
pub callback-field :
    (alloc : Allocator) (line : List ℕ) {h g : HeaderData} {t : List ℕ} {status : ℕ}
    → IsGenerous alloc
    → IsField line
    → InBlock h t status g
    → length t + length line < size_max
    → (g' : HeaderData) × (callback alloc line 1 (length line) g ≡ some (length line, [], g'))
      × InBlock h (t ++ line) status g'
callback-field alloc line {g} generous field i small =
    let (g', run', i') = block_line-InBlock alloc line generous field.2 i small in
    (
      g',
      callback-line alloc line g field.0 (omega arith)
          ∙ rw
              (
                start_block-other line g field.1,
                ◌>>=◌,
                accept_line-inside alloc line (length line) g i.inside,
              )
              run',
      i',
    )
