-- ===== src/Metrics/Tests.antt =====
-- The end of a transfer at concrete answers of libcurl.
use hcurl.Prelude.{◌*◌, ◌≤◌, ◌^◌, ◌+◌, ◌≡◌, refl, Option, some, ℕ, arith}
use hcurl.Metrics.{
  Metrics, create, add_bytes, add_downloaded, set_streamed_download, snapshot, int64_max,
}
use hcurl.Metrics.Doubles.{Double, finite, AnswersDouble, get_double_info, to_int64, round, nearest}
use hcurl.Metrics.Finish.{
  nonnegative, Infos, get_off_t_info, size_info, time_info, finish, AreBounded, Field, scale_of,
  finish-get_double_info,
}

-- Too large a number for each field.
abbrev infos : Infos
infos = record { version = 0x075000; off_t = λ f. some (nonnegative (2 ^ 63 + 5)); double = λ f. 0 }

-- A download that was counted by the callbacks.
abbrev counted : Metrics
counted = add_downloaded 7 (set_streamed_download create)

program : Unit {0}
unfolding add_bytes add_downloaded snapshot get_off_t_info size_info time_info finish
program = tt

counted-AreBounded : AreBounded (snapshot counted)
unfolding program
counted-AreBounded = (z, (z, (omega arith, (z, (z, (z, (z, (z, (z, (z, (z, (z, (z, tt)))))))))))))
  where
    z : 0 ≤ int64_max
    z = omega arith

-- A number of seconds that is half a second below the limit of microseconds.
abbrev seconds : Field → Option Double
seconds f = some (finite (2 ^ 1065 * 4722366482869389))

seconds_exact : (f : Field) → AnswersDouble (seconds f)
unfolding round nearest
seconds_exact f = refl

test_microseconds :
    get_double_info 1000000 (some (finite (2 ^ 1065 * 4722366482869389))) ≡ some 9223372036854275072
unfolding get_double_info to_int64 round nearest
test_microseconds = refl

finish-get_double_info_example :
    (v : Field → ℕ) × ((f : Field) → get_double_info (scale_of f) (seconds f) ≡ some (v f))
    × let i : Infos = record { version = 0x071200; off_t = infos.off_t; double = v } in
      AreBounded (snapshot (finish i counted)) × (finish i (finish i counted) ≡ finish i counted)
finish-get_double_info_example =
    finish-get_double_info 0x071200 infos.off_t seconds counted seconds_exact counted-AreBounded

test_streamed :
    ((finish infos counted).download_progress ≡ 7)
    × ((finish infos counted).upload_progress ≡ int64_max)
unfolding program
test_streamed = (refl, refl)
