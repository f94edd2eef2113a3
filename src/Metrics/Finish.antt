-- ===== src/Metrics/Finish.antt =====
-- cbits/curl_metrics.c: what `curl_metrics_finish` reads from libcurl at the end of a transfer, for a
-- build against libcurl 7.61.0 or later. What `get_double_info` returns for an older libcurl at run
-- time is in the record `Infos`.
use hcurl.Metrics.Doubles.{Double, AnswersDouble, get_double_info}
use hcurl.Metrics.Rounding.{get_double_info_lem}
use hcurl.Prelude.{
  ◌⊎◌, inl, inr, refl, ℕ, ◌≤◌, ◌≡◌, Bool, List, [], ◌∷◌, Option, none, some, arith, leb,
  if◌then◌else◌,
}
use hcurl.Metrics.{Metrics, int64_max, snapshot}

-- The fields that are read.
pub data Field : Type 0 where
  upload_size upload_length download_size download_length upload_rate download_rate : Field
  namelookup connect appconnect pretransfer starttransfer total redirect : Field

-- A `curl_off_t`.
pub data OffT : Type 0 where
  negative : OffT
  nonnegative : ℕ → OffT

-- What `curl_easy_getinfo` answers for a `curl_off_t`, where `none` is an error, and what
-- `get_double_info` returns; `version` is that of libcurl at run time.
pub record Infos : Type 0 where
  pub version : ℕ
  pub off_t : Field → Option OffT
  pub double : Field → ℕ

-- The scale with which `get_double_info` is called for a field.
abbrev pub scale_of : Field → ℕ
scale_of upload_size = 1
scale_of upload_length = 1
scale_of download_size = 1
scale_of download_length = 1
scale_of upload_rate = 1
scale_of download_rate = 1
scale_of namelookup = 1000000
scale_of connect = 1000000
scale_of appconnect = 1000000
scale_of pretransfer = 1000000
scale_of starttransfer = 1000000
scale_of total = 1000000
scale_of redirect = 1000000

-- `get_off_t_info`
unfoldable pub get_off_t_info : Option OffT → ℕ
get_off_t_info none = 0
get_off_t_info (some negative) = 0
get_off_t_info (some (nonnegative n)) = if leb int64_max n then int64_max else n

-- `STORE_SIZE_INFO`, for 7.55.0 and later at run time.
unfoldable pub size_info : Infos → Field → ℕ
unfolding get_off_t_info
size_info i f = if leb 0x073700 i.version then get_off_t_info (i.off_t f) else i.double f

-- `STORE_TIME_INFO`, for 7.61.0 and later at run time.
unfoldable pub time_info : Infos → Field → ℕ
unfolding get_off_t_info
time_info i f = if leb 0x073d00 i.version then get_off_t_info (i.off_t f) else i.double f

-- `curl_metrics_finish` of a context and a handle that are not null.
unfoldable pub finish : Infos → Metrics → Metrics
unfolding size_info time_info
finish i m = record m {
  upload_progress = if m.streamed_upload then m.upload_progress else size_info i upload_size;
  upload_total = size_info i upload_length;
  download_progress =
      if m.streamed_download then m.download_progress else size_info i download_size;
  download_total = size_info i download_length;
  upload_speed = size_info i upload_rate;
  download_speed = size_info i download_rate;
  namelookup_time = time_info i namelookup;
  connect_time = time_info i connect;
  appconnect_time = if leb 0x071300 i.version then time_info i appconnect else m.appconnect_time;
  pretransfer_time = time_info i pretransfer;
  starttransfer_time = time_info i starttransfer;
  total_time = time_info i total;
  redirect_time = time_info i redirect;
}

-- No number of a list is more than `INT64_MAX`.
abbrev pub AreBounded : List ℕ → Type 0
AreBounded [] = Unit
AreBounded (n ∷ ns) = (n ≤ int64_max) × AreBounded ns

off_t_le : (v : Option OffT) → get_off_t_info v ≤ int64_max
unfolding get_off_t_info
off_t_le none = omega arith
off_t_le (some negative) = omega arith
off_t_le (some (nonnegative n)) = ground arith

size_le : (i : Infos) (f : Field) → i.double f ≤ int64_max → size_info i f ≤ int64_max
unfolding size_info
size_le i f h = ground (arith, off_t_le (i.off_t f), h)

time_le : (i : Infos) (f : Field) → i.double f ≤ int64_max → time_info i f ≤ int64_max
unfolding time_info
time_le i f h = ground (arith, off_t_le (i.off_t f), h)

kept_le : (b : Bool) (x y : ℕ) → x ≤ int64_max → y ≤ int64_max → (if b then x else y) ≤ int64_max
kept_le b x y p q = ground arith

finish_again : (i : Infos) (m : Metrics) → finish i (finish i m) ≡ finish i m
unfolding finish
finish_again i m = ground arith

-- At values that are in range, no counter is more than `INT64_MAX` afterwards, if none was before; and a
-- second call with the same answers changes nothing.
finish-AreBounded :
    (i : Infos) (m : Metrics)
    → ((f : Field) → i.double f ≤ int64_max)
    → AreBounded (snapshot m)
    → AreBounded (snapshot (finish i m)) × (finish i (finish i m) ≡ finish i m)
unfolding finish snapshot
finish-AreBounded i m d h = (
  (
    kept_le m.streamed_upload m.upload_progress (size_info i upload_size) h.0
        (size_le i upload_size (d upload_size)),
    (
      size_le i upload_length (d upload_length),
      (
        kept_le m.streamed_download m.download_progress (size_info i download_size) h.1.1.0
            (size_le i download_size (d download_size)),
        (
          size_le i download_length (d download_length),
          (
            size_le i upload_rate (d upload_rate),
            (
              size_le i download_rate (d download_rate),
              (
                time_le i namelookup (d namelookup),
                (
                  time_le i connect (d connect),
                  (
                    kept_le (leb 0x071300 i.version) (time_info i appconnect) m.appconnect_time
                        (time_le i appconnect (d appconnect)) h.1.1.1.1.1.1.1.1.0,
                    (
                      time_le i pretransfer (d pretransfer),
                      (
                        time_le i starttransfer (d starttransfer),
                        (time_le i total (d total), (time_le i redirect (d redirect), tt)),
                      ),
                    ),
                  ),
                ),
              ),
            ),
          ),
        ),
      ),
    ),
  ),
  finish_again i m,
)

scales : (f : Field) → (scale_of f ≡ 1) ⊎ (scale_of f ≡ 1000000)
scales upload_size = inl refl
scales upload_length = inl refl
scales download_size = inl refl
scales download_length = inl refl
scales upload_rate = inl refl
scales download_rate = inl refl
scales namelookup = inr refl
scales connect = inr refl
scales appconnect = inr refl
scales pretransfer = inr refl
scales starttransfer = inr refl
scales total = inr refl
scales redirect = inr refl

-- `curl_metrics_finish`, whatever libcurl answers for its fields, converts no `double` that is out of
-- range; no counter of the snapshot is more than `INT64_MAX` afterwards, if none was before; and a
-- second call with the same answers changes nothing.
pub finish-get_double_info :
    (version : ℕ) (off_t : Field → Option OffT) (double : Field → Option Double) (m : Metrics)
    → ((f : Field) → AnswersDouble (double f))
    → AreBounded (snapshot m)
    → (v : Field → ℕ) × ((f : Field) → get_double_info (scale_of f) (double f) ≡ some (v f))
      × let i : Infos = record { version = version; off_t = off_t; double = v } in
        AreBounded (snapshot (finish i m)) × (finish i (finish i m) ≡ finish i m)
finish-get_double_info version off_t double m doubles h =
    let converted =
      λ (f : Field). get_double_info_lem (scale_of f) (double f) (scales f) (doubles f) in
    let i : Infos = record { version = version; off_t = off_t; double = λ f. (converted f).0 } in
    (i.double, λ f. (converted f).1, finish-AreBounded i m (λ f. (converted f).2) h)
