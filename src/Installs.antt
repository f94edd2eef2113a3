-- ===== src/Installs.antt =====
-- The functions that give an easy handle its callbacks: `simple_string_install`,
-- `header_data_install`, `hcurl_stream_install_download` and `hcurl_stream_install_upload`, in
-- cbits/simple_string.c, cbits/headers.c and cbits/stream.c. A pointer is a number, and 0 is null.
pub mod Outcomes
mod Tests
use hcurl.Prelude.{
  ℕ, ◌≡◌, ◌≢◌, Bool, true, false, ◌&&◌, ◌||◌, not, Option, none, some, ◌==◌, leb, if◌then◌else◌,
}
use hcurl.Options.{bad_function_argument}
use hcurl.Easy.Once.{Global, global_init_once}
use hcurl.Metrics.{Metrics, set_streamed_download, set_streamed_upload}
use hcurl.Headers.Collector.{HeaderData}
use hcurl.Stream.State.{Stream, World, is_download}

pub data Callback : Type 0 where
  string_write header_line download_write upload_read : Callback

-- The value of an option.
pub data Value : Type 0 where
  pointer : ℕ → Value
  function : Callback → Value
  long : ℕ → Value
  default : Value

-- libcurl's numbers of the options.
abbrev pub write_data : ℕ
write_data = 10001

abbrev pub write_function : ℕ
write_function = 20011

abbrev pub read_data : ℕ
read_data = 10009

abbrev pub read_function : ℕ
read_function = 20012

abbrev pub header_data : ℕ
header_data = 10029

abbrev pub header_function : ℕ
header_function = 20079

abbrev pub suppress_connect_headers : ℕ
suppress_connect_headers = 265

-- `curl_easy_setopt`, as libcurl documents it: it sets the option and returns `CURLE_OK`, or it
-- returns an error and sets none.
pub record Libcurl (Handle : Type 0) : Type 0 where
  pub setopt : ℕ → Value → Handle → ℕ × Handle
  pub option : Handle → ℕ → Value
  pub sets :
      (name : ℕ) (value : Value) (h : Handle)
      → (setopt name value h).0 ≡ 0
      → option (setopt name value h).1 name ≡ value
  pub keeps :
      (name other : ℕ) (value : Value) (h : Handle)
      → other ≢ name
      → option (setopt name value h).1 other ≡ option h other
  pub fails :
      (name other : ℕ) (value : Value) (h : Handle)
      → (setopt name value h).0 ≢ 0
      → option (setopt name value h).1 other ≡ option h other

module _ {Handle : Type 0} (curl : Libcurl Handle) where
  -- Two options, the second one if the first one was set.
  abbrev pub set_both : ℕ → Value → ℕ → Value → Handle → ℕ × Handle
  set_both name value name' value' h =
      let (code, h') = curl.setopt name value h in
      if code == 0 then curl.setopt name' value' h' else (code, h')

  -- `simple_string_install`
  unfoldable pub string_install : ℕ → ℕ → Handle → ℕ × Handle
  string_install easy str h =
      if easy == 0 || str == 0
      then (bad_function_argument, h)
      else set_both write_data (pointer str) write_function (function string_write) h

  -- `header_data_install`; the Boolean is the build's test of `LIBCURL_VERSION_NUM`.
  unfoldable pub header_data_install : Bool → ℕ → ℕ → Handle → ℕ × Handle
  header_data_install suppresses easy headers h =
      if easy == 0 || headers == 0
      then (bad_function_argument, h)
      else let (code, h') =
          set_both header_data (pointer headers) header_function (function header_line) h in
        if code == 0 && suppresses
        then curl.setopt suppress_connect_headers (long 1) h'
        else (code, h')

  -- `hcurl_stream_install_download` of a stream at an address that is not null.
  unfoldable pub install_download :
      ℕ → ℕ → Option HeaderData → Option Metrics → World → Handle → ℕ × World × Handle
  install_download easy stream none metrics w h = (bad_function_argument, w, h)
  install_download easy stream (some headers) none w h = (bad_function_argument, w, h)
  install_download easy stream (some headers) (some metrics) w h =
      if easy == 0 || not (is_download w.stream.kind)
      then (bad_function_argument, w, h)
      else let w' : World = record w {
        stream = record w.stream { attached = true };
        headers = some headers;
        metrics = some (set_streamed_download metrics);
      } in
        let (code, h') =
          set_both write_data (pointer stream) write_function (function download_write) h in
        (code, w', h')

-- The test of `curl_version_info`, which may return null.
abbrev is_recent : Option ℕ → Bool
is_recent none = false
is_recent (some version) = leb 463616 version

-- `hcurl_stream_upload_supported`, with what `curl_global_init` would answer.
unfoldable pub upload_supported : ℕ → Option ℕ → Global → Bool × Global
unfolding global_init_once
upload_supported answer version g =
    let (result, g') = global_init_once answer g in (result == 0 && is_recent version, g')

-- What `hcurl_stream_install_upload` returns.
pub data UploadCode : Type 0 where
  unsupported : UploadCode
  code : ℕ → UploadCode

-- `hcurl_stream_install_upload` of a stream at an address that is not null.
unfoldable pub install_upload :
    {Handle : Type 0}
    → Libcurl Handle
    → ℕ
    → Option ℕ
    → ℕ
    → ℕ
    → Option Metrics
    → Global
    → World
    → Handle
    → UploadCode × Global × World × Handle
install_upload curl answer version easy stream none g w h = (code bad_function_argument, g, w, h)
install_upload curl answer version easy stream (some metrics) g w h =
    if easy == 0 || is_download w.stream.kind
    then (code bad_function_argument, g, w, h)
    else let (supported, g') = upload_supported answer version g in
      if not supported
      then (unsupported, g', w, h)
      else let w' : World = record w {
        stream = record w.stream { attached = true };
        metrics = some (set_streamed_upload metrics);
      } in
        let (result, h') =
          set_both curl read_function (function upload_read) read_data (pointer stream) h in
        (code result, g', w', h')
