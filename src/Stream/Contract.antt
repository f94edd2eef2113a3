-- ===== src/Stream/Contract.antt =====
-- cbits/stream.c: how a stream begins, what an end of file promises, and what resuming and closing
-- tell the agent.
use mathlib.Core.List.{append-nil}
use hcurl.Prelude.{
  ℕ, zero, suc, ◌/◌, ◌≡◌, refl, sym, ap, ◌∙◌, ◌⊎◌, inl, inr, Bool, false, not, ◌||◌, List, [], ◌++◌,
  Option, none, some, arith, size_max, length, replicate, ltb, ◌==◌, if-elim,
}
use hcurl.Waker.{Put}
use hcurl.Sender
use hcurl.Sender.{Sender, Message}
use hcurl.Stream.State.{Stream, World, Answers, Kind, is_download, null_chunk, chunk_size, create}
use hcurl.Stream.Ring.{queued, unread_bytes, small_mod}
use hcurl.Ring.{window}
use hcurl.Stream.Invariant.{IsValid}
use hcurl.Stream.Download.{ReadOut, eof, read_closed, try_read, read_chunk, read_status}
use hcurl.Stream.Control.{ControlResult}
use hcurl.Stream.Bytes.{run, AllFair, Call, run-Moved}

length-replicate : {A : Type 0} (n : ℕ) (a : A) → length (replicate n a) ≡ n
length-replicate zero a = refl
length-replicate (suc n) a = ap suc (length-replicate n a)

-- `hcurl_stream_create` gives null, or a stream that is valid, empty and open.
pub create-Stream :
    (setup_ok : Bool) (kind : Kind) (capacity : ℕ) (sender : Sender) (transfer_id : ℕ)
    → let r = create setup_ok kind capacity sender transfer_id in
      (r.0 ≡ none)
      ⊎ ((s : Stream) × (r.0 ≡ some s)
          × IsValid s
          × (queued s ≡ [])
          × (s.closed ≡ false)
          × (s.terminal_set ≡ false))
unfolding create
create-Stream setup_ok kind capacity sender transfer_id =
    if-elim P (capacity == 0 || ltb (size_max / chunk_size) capacity || transfer_id == 0)
      (λ e. inl refl)
      (λ e.
        if-elim P (not (Sender.retain sender).0) (λ f. inl refl)
          (λ f.
            if-elim P (not setup_ok) (λ g. inl refl)
              (λ g. inr (
                _,
                refl,
                record {
                  ring = record {
                    size = length-replicate capacity null_chunk;
                    pos = ground arith;
                    small = ground arith;
                    at_head = ground arith;
                    room = omega arith;
                    at_tail = sym (small_mod 0 capacity (ground arith));
                    live = tt;
                  };
                  flags = ground arith;
                },
                refl,
                refl,
                refl,
              ))))
  where
    P : Option Stream × Sender → Type 0
    P r =
        (r.0 ≡ none)
        ⊎ ((s : Stream) × (r.0 ≡ some s)
            × IsValid s
            × (queued s ≡ [])
            × (s.closed ≡ false)
            × (s.terminal_set ≡ false))

closed-ne-eof : {P : Type 0} → read_closed ≡ eof → P
closed-ne-eof e = cc

status-ne-eof : {P : Type 0} (r : ControlResult) → read_status r ≡ eof → P
status-ne-eof ControlResult.control_ok e = cc
status-ne-eof ControlResult.retry e = cc
status-ne-eof ControlResult.control_closed e = cc

-- A stream at its end of file is empty and open.
eof_lem :
    (a : Answers) (w : World)
    → (try_read a w).0.result ≡ eof
    → (w.stream.count ≡ 0) × (w.stream.closed ≡ false)
unfolding try_read read_chunk
eof_lem a w =
    if-elim P (not (is_download w.stream.kind)) (λ e h. closed-ne-eof h)
      (λ e.
        if-elim P (not (w.stream.count == 0)) (λ f h. status-ne-eof _ h)
          (λ f. if-elim P w.stream.closed (λ g h. closed-ne-eof h) (λ g h. (ground arith, g))))
  where
    P : ReadOut × List Put × World → Type 0
    P r = r.0.result ≡ eof → (w.stream.count ≡ 0) × (w.stream.closed ≡ false)

-- A reader that sees the end of file, after any sequence of fair calls on a valid stream that was
-- empty, has been given exactly the bytes that were accepted.
pub run-eof :
    (cs : List Call) (a : Answers) (w : World)
    → IsValid w.stream
    → queued w.stream ≡ []
    → AllFair cs
    → (try_read a (run cs w).world).0.result ≡ eof
    → (run cs w).delivered ≡ (run cs w).accepted
run-eof cs a w v empty fair ended =
    let t = run cs w in
    let (dropped, m) = run-Moved cs w v fair in
    let (none_left, alive) = eof_lem a t.world ended in
    let s = t.world.stream in
    let left : queued s ≡ [] =
      ap (λ n. unread_bytes (window null_chunk s.capacity s.chunks s.head n)) none_left in
    sym (
      ap (λ q. q ++ t.accepted) (sym empty)
      ∙ m.bytes
      ∙ ap (λ q. t.delivered ++ (q ++ queued s)) (m.lossless alive)
      ∙ ap (λ q. t.delivered ++ q) left
      ∙ append-nil t.delivered)
