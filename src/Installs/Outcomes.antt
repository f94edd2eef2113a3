-- ===== src/Installs/Outcomes.antt =====
-- What the installation of callbacks leaves in a handle.
use hcurl.Prelude.{
  ℕ, ◌≡◌, ◌≢◌, sym, ◌∙◌, ◌⊎◌, inl, inr, Bool, true, false, ◌||◌, Option, none, some, arith, ◌==◌,
  ==_iff, true-ne-false, if-elim,
}
use hcurl.Easy.Once.{Global}
use hcurl.Options.{bad_function_argument}
use hcurl.Metrics.{Metrics, set_streamed_download, set_streamed_upload}
use hcurl.Headers.Collector.{HeaderData}
use hcurl.Stream.State.{World, is_download}
use hcurl.Installs.{
  Value, pointer, function, string_write, header_line, download_write, upload_read, long, Libcurl,
  set_both, string_install, UploadCode, unsupported, code, upload_supported, write_data,
  write_function, read_data, read_function, header_data, header_function, suppress_connect_headers,
}

module _ {Handle : Type 0} (curl : Libcurl Handle) where
  -- What setting one option and then another leaves: both, where it succeeds; never the second one
  -- without the first one; and the other options as they were.
  pub record Both (name : ℕ) (value : Value) (name' : ℕ) (value' : Value) (h : Handle) (result : ℕ)
      (h' : Handle) : Type 0 where
    pub complete : result ≡ 0 → (curl.option h' name ≡ value) × (curl.option h' name' ≡ value')
    pub ordered : (curl.option h' name' ≡ curl.option h name') ⊎ (curl.option h' name ≡ value)
    pub others :
        (other : ℕ) → other ≢ name → other ≢ name' → curl.option h' other ≡ curl.option h other

  pub set_both-Both :
      (name : ℕ) (value : Value) (name' : ℕ) (value' : Value) (h : Handle)
      → name ≢ name'
      → let (result, h') = set_both curl name value name' value' h in
        Both name value name' value' h result h'
  set_both-Both name value name' value' h apart =
      let first = curl.setopt name value h in
      let second = curl.setopt name' value' first.1 in
      if-elim (λ (r : ℕ × Handle). Both name value name' value' h r.0 r.1) (first.0 == 0)
        (λ e.
          let there : curl.option second.1 name ≡ value =
            curl.keeps name' name value' first.1 apart
            ∙ curl.sets name value h ((==_iff first.0 0).0 e) in
          record {
            complete = λ ok. (there, curl.sets name' value' first.1 ok);
            ordered = inr there;
            others = λ other p q.
                curl.keeps name' other value' first.1 q ∙ curl.keeps name other value h p;
          })
        (λ e.
          let failed : first.0 ≢ 0 = λ z. true-ne-false (sym ((==_iff first.0 0).1 z) ∙ e) in
          record {
            complete = λ ok. absurd (failed ok);
            ordered = inl (curl.fails name name' value h failed);
            others = λ other p q. curl.fails name other value h failed;
          })

  -- `simple_string_install` refuses null, and otherwise sets the buffer and then its callback.
  pub string_install-Both :
      (easy str : ℕ) (h : Handle)
      → easy ≢ 0
      → str ≢ 0
      → let (result, h') = string_install curl easy str h in
        Both write_data (pointer str) write_function (function string_write) h result h'
  unfolding string_install
  string_install-Both easy str h there given =
      if-elim
        (λ (r : ℕ × Handle).
          Both write_data (pointer str) write_function (function string_write) h r.0 r.1)
        (easy == 0 || str == 0) (λ e. absurd (ground arith))
        (λ e.
          set_both-Both write_data (pointer str) write_function (function string_write) h
            (omega arith))

  -- What `header_data_install` leaves: the collector and its callback, and the third option where the
  -- build has it, if it succeeds; never the callback without the collector.
  pub record Lines (suppresses : Bool) (headers : ℕ) (h : Handle) (result : ℕ) (h' : Handle)
      : Type 0 where
    pub complete :
        result ≡ 0
        → (curl.option h' header_data ≡ pointer headers)
          × (curl.option h' header_function ≡ function header_line)
          × (suppresses ≡ true → curl.option h' suppress_connect_headers ≡ long 1)
    pub ordered :
        (curl.option h' header_function ≡ curl.option h header_function)
        ⊎ (curl.option h' header_data ≡ pointer headers)

  -- What `hcurl_stream_install_download` does.
  pub data Downloads (easy stream : ℕ) (headers : Option HeaderData) (metrics : Option Metrics)
      (w : World) (h : Handle) : ℕ × World × Handle → Type 0 where
    null_headers :
        headers ≡ none → Downloads easy stream headers metrics w h (bad_function_argument, w, h)
    null_metrics :
        metrics ≡ none → Downloads easy stream headers metrics w h (bad_function_argument, w, h)
    null_easy : easy ≡ 0 → Downloads easy stream headers metrics w h (bad_function_argument, w, h)
    not_download :
        is_download w.stream.kind ≡ false
        → Downloads easy stream headers metrics w h (bad_function_argument, w, h)
    attached :
        (d : HeaderData) (m : Metrics) (result : ℕ) (h' : Handle)
        → headers ≡ some d
        → metrics ≡ some m
        → Both write_data (pointer stream) write_function (function download_write) h result h'
        → Downloads easy stream headers metrics w h (
          result,
          record w {
            stream = record w.stream { attached = true };
            headers = some d;
            metrics = some (set_streamed_download m);
          },
          h',
        )

  -- What `hcurl_stream_install_upload` does.
  pub data Uploads (answer : ℕ) (version : Option ℕ) (easy stream : ℕ) (metrics : Option Metrics)
      (g : Global) (w : World) (h : Handle) : UploadCode × Global × World × Handle → Type 0 where
    refused :
        (easy ≡ 0) ⊎ ((is_download w.stream.kind ≡ true) ⊎ (metrics ≡ none))
        → Uploads answer version easy stream metrics g w h (code bad_function_argument, g, w, h)
    too_old :
        (upload_supported answer version g).0 ≡ false
        → Uploads answer version easy stream metrics g w h
            (unsupported, (upload_supported answer version g).1, w, h)
    installed :
        (m : Metrics) (result : ℕ) (h' : Handle)
        → metrics ≡ some m
        → (upload_supported answer version g).0 ≡ true
        → Both read_function (function upload_read) read_data (pointer stream) h result h'
        → Uploads answer version easy stream metrics g w h (
          code result,
          (upload_supported answer version g).1,
          record w {
            stream = record w.stream { attached = true };
            metrics = some (set_streamed_upload m);
          },
          h',
        )
