-- ===== src/Totp/Tests.antt =====
-- Runs of config-api/app/admin_2fa.py, and the theorems at concrete inputs.
use pa_sso_proxy.Prelude.{
  ℕ, ◌+◌, ◌*◌, ◌%◌, ◌/◌, ◌≤◌, ◌<◌, ◌≡◌, ◌≢◌, ◌↔◌, refl, true, none, some, [], ◌∷◌, arith,
}
use pa_sso_proxy.Unicode.{Text, is_ascii, is_digit, is_space, text_eq}
use pa_sso_proxy.Result.{ok, err}
use pa_sso_proxy.RateLimiter.{second}
use pa_sso_proxy.Totp.{
  interval, Crypto, compare_type_error, AdminTotp, decrypt_secret, first_match, matching_counter,
  without_spaces, accept, settle, looks_like_code, verify_code,
}
use pa_sso_proxy.Totp.Accept.{
  Accepts, Fails, verify_code_sound, verify_code_complete, verify_code_raises,
}
use pa_sso_proxy.Totp.Replay.{submit_all, verify_code_replay}
use pa_sso_proxy.Totp.Enrollment.{Decrypts}

-- The code of counter n is its last digit, six times.
abbrev pub six : ℕ → Text
six d = d ∷ d ∷ d ∷ d ∷ d ∷ d ∷ []

abbrev pub toy : Crypto
toy = record {
  encrypt = λ entropy s. s;
  decrypt = λ token. some token;
  generate_otp = λ secret. some (λ counter. six (b'0' + counter % 10));
}

toy-Decrypts : Decrypts toy
toy-Decrypts entropy s = refl

-- A quarter into counter 100.
abbrev pub instant : ℕ
instant = 3005 * second

abbrev pub enrolled : AdminTotp
enrolled = record { secret_enc = "BASE32"; confirmed_at = some 7; last_used_counter = some 99 }

abbrev pub enrolled_100 : AdminTotp
enrolled_100 = record { secret_enc = "BASE32"; confirmed_at = some 7; last_used_counter = some 100 }

-- "000 000"
abbrev pub typed : Text
typed = b'0' ∷ b'0' ∷ b'0' ∷ b' ' ∷ b'0' ∷ b'0' ∷ b'0' ∷ []

accepts_typed : verify_code toy enrolled typed instant ≡ ok (true, enrolled_100)
unfolding verify_code without_spaces looks_like_code is_space is_digit decrypt_secret
    matching_counter is_ascii first_match text_eq settle
accepts_typed = refl

-- Six Arabic-Indic digits have the form of a code, and the comparison raises.
abbrev arabic : Text
arabic = six 1632

raises_arabic : verify_code toy enrolled arabic instant ≡ err compare_type_error
unfolding verify_code without_spaces looks_like_code is_space is_digit decrypt_secret
    matching_counter is_ascii
raises_arabic = refl

verify_code_sound_example :
    (counter : ℕ) × Accepts toy enrolled (without_spaces typed) instant counter
    × (enrolled_100.secret_enc ≡ enrolled.secret_enc)
    × (enrolled_100.last_used_counter ≡ some counter)
    × (enrolled_100.confirmed_at ≢ none)
verify_code_sound_example = verify_code_sound toy enrolled enrolled_100 typed instant accepts_typed

abbrev enrolled_101 : AdminTotp
enrolled_101 = record { secret_enc = "BASE32"; confirmed_at = some 7; last_used_counter = some 101 }

later_accepted :
    verify_code toy
      (submit_all toy enrolled_100 ((arabic, instant) ∷ []))
      (six b'1')
      (instant + interval)
    ≡ ok (true, enrolled_101)
unfolding submit_all verify_code without_spaces looks_like_code is_space is_digit decrypt_secret
    matching_counter is_ascii first_match text_eq settle
later_accepted = refl

verify_code_replay_example :
    verify_code toy (submit_all toy enrolled_100 ((arabic, instant) ∷ [])) typed (instant + second)
    ≢ ok (true, enrolled_101)
verify_code_replay_example =
    verify_code_replay toy enrolled enrolled_100 enrolled_101 typed instant (instant + second)
      ((arabic, instant) ∷ []) refl accepts_typed

typed-Accepts : Accepts toy enrolled (without_spaces typed) instant 100
unfolding without_spaces is_space
typed-Accepts = record {
  secret = "BASE32";
  decrypts = refl;
  otp = λ counter. six (b'0' + counter % 10);
  codes = refl;
  matches = refl;
  not_before = omega arith;
  not_after = omega arith;
  newer = omega arith;
}

no_earlier :
    (d : ℕ) → instant / interval ≤ d + 1 → d < 100 → six (b'0' + d % 10) ≢ without_spaces typed
unfolding without_spaces is_space
no_earlier d le lt e = let last : d ≡ 99 = omega arith in ground arith

verify_code_complete_example :
    verify_code toy enrolled typed instant ≡ ok (true, accept enrolled 100 instant)
unfolding without_spaces looks_like_code is_space is_digit is_ascii typed-Accepts
verify_code_complete_example =
    verify_code_complete toy enrolled typed instant 100 refl refl (omega arith) typed-Accepts
      no_earlier

verify_code_raises_example : (verify_code toy enrolled arabic instant ≡ err compare_type_error) ↔ (
    (looks_like_code (without_spaces arabic) ≡ true)
    × Fails toy enrolled (without_spaces arabic) instant compare_type_error)
verify_code_raises_example = verify_code_raises toy enrolled arabic instant compare_type_error

abbrev fresh : AdminTotp
fresh = record { secret_enc = "NEW"; confirmed_at = none; last_used_counter = none }
