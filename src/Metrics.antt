-- ===== src/Metrics.antt =====
-- cbits/curl_metrics.c: the counters of one transfer that the callbacks of cbits/stream.c write,
-- and the snapshot. The counters that `curl_metrics_finish` reads from libcurl are those that are
-- set by nothing here.
pub mod Doubles
pub mod Rounding
pub mod Finish
mod Tests
use hcurl.Prelude.{
  ℕ, ◌+◌, ◌-◌, ◌^◌, ◌≤◌, ◌≡◌, Bool, true, false, List, [], ◌∷◌, arith, ltb, if◌then◌else◌, min,
}

-- `curl_metrics_context_s`: an `int64_t` that is never negative is a number.
pub record Metrics : Type 0 where
  pub upload_progress : ℕ
  pub upload_total : ℕ
  pub download_progress : ℕ
  pub download_total : ℕ
  pub upload_speed : ℕ
  pub download_speed : ℕ
  pub namelookup_time : ℕ
  pub connect_time : ℕ
  pub appconnect_time : ℕ
  pub pretransfer_time : ℕ
  pub starttransfer_time : ℕ
  pub total_time : ℕ
  pub redirect_time : ℕ
  pub streamed_download : Bool
  pub streamed_upload : Bool

abbrev pub int64_max : ℕ
int64_max = 2 ^ 63 - 1

-- `curl_metrics_context_create`, where its `malloc` succeeds.
abbrev pub create : Metrics
create = record {
  upload_progress = 0;
  upload_total = 0;
  download_progress = 0;
  download_total = 0;
  upload_speed = 0;
  download_speed = 0;
  namelookup_time = 0;
  connect_time = 0;
  appconnect_time = 0;
  pretransfer_time = 0;
  starttransfer_time = 0;
  total_time = 0;
  redirect_time = 0;
  streamed_download = false;
  streamed_upload = false;
}

-- `add_bytes`: what the compare-and-swap that succeeds stores over the value that it read.
unfoldable pub add_bytes : ℕ → ℕ → ℕ
add_bytes current bytes =
    let increment : ℕ = if ltb int64_max bytes then int64_max else bytes in
    if ltb (int64_max - increment) current then int64_max else current + increment

unfoldable pub add_downloaded : ℕ → Metrics → Metrics
unfolding add_bytes
add_downloaded bytes m = record m { download_progress = add_bytes m.download_progress bytes }

unfoldable pub add_uploaded : ℕ → Metrics → Metrics
unfolding add_bytes
add_uploaded bytes m = record m { upload_progress = add_bytes m.upload_progress bytes }

abbrev pub set_streamed_download : Metrics → Metrics
set_streamed_download m = record m { streamed_download = true }

abbrev pub set_streamed_upload : Metrics → Metrics
set_streamed_upload m = record m { streamed_upload = true }

-- `curl_metrics_snapshot` of a context, into its 13 places.
unfoldable pub snapshot : Metrics → List ℕ
snapshot m =
    m.upload_progress ∷ m.upload_total ∷ m.download_progress ∷ m.download_total ∷ m.upload_speed
    ∷ m.download_speed ∷ m.namelookup_time ∷ m.connect_time ∷ m.appconnect_time ∷ m.pretransfer_time
    ∷ m.starttransfer_time ∷ m.total_time ∷ m.redirect_time ∷ []

-- Adding one amount after another, as the callbacks of one transfer do.
pub add_all : ℕ → List ℕ → ℕ
unfolding add_bytes
add_all current [] = current
add_all current (n ∷ ns) = add_all (add_bytes current n) ns

abbrev pub total : List ℕ → ℕ
total [] = 0
total (n ∷ ns) = n + total ns

-- A counter never overflows: after any amounts, in any order, it is their exact sum, or
-- `INT64_MAX` where the sum is larger.
pub add_all-eq-min :
    (current : ℕ) (ns : List ℕ)
    → current ≤ int64_max
    → add_all current ns ≡ min (current + total ns) int64_max
unfolding add_all
add_all-eq-min current [] h = omega arith
add_all-eq-min current (n ∷ ns) h = ground (arith, add_all-eq-min (add_bytes current n) ns)
