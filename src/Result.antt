-- ===== src/Result.antt =====
-- errors.go, the errors that other files make on the spot, and Go's (value, error) pair.
-- A run-time panic (an index or a slice out of range) ends a Go program, so it is a third outcome.
-- A loop that has used up its fuel answers `stuck`, which is no Go value.
use rtcp.Prelude.{Bool, true, false, ◌≡◌, ◌∙◌, refl, sym, ap}

pub data Error : Type 0 where
  err_invalid_total_lost err_invalid_header err_empty_compound err_bad_first_packet : Error
  err_missing_cname err_packet_before_cname err_too_many_reports err_too_many_chunks : Error
  err_too_many_sources err_packet_too_short err_wrong_type err_sdes_text_too_long : Error
  err_sdes_missing_type err_reason_too_long err_bad_version : Error
  -- receiver_estimated_maximum_bitrate.go
  wrong_marshal_size short_buffer buffer_too_short version_must_be_two padding_must_be_zero : Error
  wrong_feedback_message_type wrong_payload_type header_length_too_small : Error
  media_ssrc_must_be_zero missing_remb_identifier ssrc_num_and_length_do_not_match : Error
  -- transport_layer_cc.go
  err_packet_status_chunk_length err_delta_exceed_limit : Error

pub data Result {ℓ} (A : Type ℓ) : Type ℓ where
  ok : A → Result A
  err : Error → Result A
  panic stuck : Result A

infixl 5 ◌>>=◌
abbrev pub ◌>>=◌ {ℓ κ} : {A : Type ℓ} {B : Type κ} → Result A → (A → Result B) → Result B
panic >>= next = panic
stuck >>= next = stuck
err e >>= next = err e
ok a >>= next = next a

-- `if bad { return err }`
abbrev pub fail_if : Bool → Error → Result (Unit {0})
fail_if false e = ok tt
fail_if true e = err e

infixl 5 ◌>>◌
abbrev pub ◌>>◌ {ℓ} : {B : Type ℓ} → Result (Unit {0}) → Result B → Result B
first >> second = first >>= λ _. second

-- What a successful sequence went through.
pub bind-eq-ok {ℓ κ} :
    {A : Type ℓ} {B : Type κ} (first : Result A) (next : A → Result B) {last : B}
    → (first >>= next) ≡ ok last
    → (a : A) × (first ≡ ok a) × (next a ≡ ok last)
bind-eq-ok panic next e = cc
bind-eq-ok stuck next e = cc
bind-eq-ok (err x) next e = cc
bind-eq-ok (ok a) next e = (a, refl, e)

-- What comes behind a step that succeeded.
pub bind-of_ok {ℓ κ} :
    {A : Type ℓ} {B : Type κ} {first : Result A} {a : A} (next : A → Result B) {last : Result B}
    → first ≡ ok a
    → (first >>= next) ≡ last
    → next a ≡ last
bind-of_ok next e h = ap (λ m. m >>= next) (sym e) ∙ h

-- Two continuations that agree on the value that there is.
pub bind-ext {ℓ κ} :
    {A : Type ℓ} {B : Type κ} (m : Result A) (f g : A → Result B)
    → ((a : A) → m ≡ ok a → f a ≡ g a)
    → (m >>= f) ≡ (m >>= g)
bind-ext (ok a) f g same = same a refl
bind-ext (err e) f g same = refl
bind-ext panic f g same = refl
bind-ext stuck f g same = refl

pub bind_assoc {ℓ κ μ} :
    {A : Type ℓ} {B : Type κ} {C : Type μ} (m : Result A) (f : A → Result B) (g : B → Result C)
    → (m >>= f >>= g) ≡ (m >>= λ a. f a >>= g)
bind_assoc (ok a) f g = refl
bind_assoc (err e) f g = refl
bind_assoc panic f g = refl
bind_assoc stuck f g = refl

-- The result is a Go value: no panic and no exhausted fuel.
abbrev pub Returns {ℓ} : {A : Type ℓ} → Result A → Type 0
Returns (ok a) = Unit
Returns (err e) = Unit
Returns panic = ⊥
Returns stuck = ⊥
