-- ===== src/App/OtaUpdater/Verify.antt =====
-- The verdict on an image does not depend on the pieces: it is that of the checksum of the whole.
use native.Mathlib.Nat.{div-lt_iff_lt-mul}
use agentic_engineering_trai.Base.{
  ℕ, zero, suc, ◌+◌, ◌*◌, ◌/◌, ◌^◌, ◌≤◌, ◌<◌, ◌≡◌, refl, sym, ap, ◌∙◌, List, Bool, true, false, inl,
  inr, some, arith, leb, ◌==◌, if◌then◌else◌, Bool-cases, take, drop, take_more,
}
use agentic_engineering_trai.Common.Status.{ok}
use agentic_engineering_trai.Common.Crc16.{crc16_ccitt, crc_seed}
use agentic_engineering_trai.Common.Crc16.Laws.{crc16_ccitt-append}
use agentic_engineering_trai.App.OtaUpdater.{
  OtaUpdater, OtaState, verifying, ready, failed, is_verifying, chunk_bytes, chunk_of, begin, step,
  steps, progress_percent,
}

-- The verdict of a check in one piece.
abbrev pub verdict : List ℕ → ℕ → ℕ → OtaState
verdict image len expected =
    if crc16_ccitt (take len image) crc_seed == expected then ready else failed

-- A check under way: the running checksum is that of the bytes done, and there are bytes left.
pub record IsChecking (u : OtaUpdater) : Type 0 where
  pub at_work : u.state ≡ verifying
  pub left : u.verified < u.image_len
  pub running : u.running_crc ≡ crc16_ccitt (take u.verified u.image) crc_seed

-- One more piece.
step_running :
    (u : OtaUpdater)
    → IsChecking u
    → crc16_ccitt (take (chunk_of u) (drop u.verified u.image)) u.running_crc
      ≡ crc16_ccitt (take (u.verified + chunk_of u) u.image) crc_seed
step_running u v =
    ap (λ k. crc16_ccitt (take (chunk_of u) (drop u.verified u.image)) k) v.running
    ∙ sym (
        crc16_ccitt-append (take u.verified u.image) (take (chunk_of u) (drop u.verified u.image))
          crc_seed)
    ∙ ap (λ k. crc16_ccitt k crc_seed) (take_more u.verified (chunk_of u) u.image)

steps_ended : (n : ℕ) (u : OtaUpdater) → is_verifying u.state ≡ false → steps n u ≡ u
unfolding steps step
steps_ended zero u h = refl
steps_ended (suc n) u h = rw h (steps_ended n u h)

is_verifying-at_work : (s : OtaState) → s ≡ verifying → is_verifying s ≡ true
is_verifying-at_work s h = rw h refl

verdict_ends : (b : Bool) → is_verifying (if b then ready else failed) ≡ false
verdict_ends true = refl
verdict_ends false = refl

-- While bytes are left behind the next piece, a step goes on with the check.
step-IsChecking :
    (u : OtaUpdater)
    → IsChecking u
    → leb u.image_len (u.verified + chunk_of u) ≡ false
    → IsChecking (step u)
unfolding step
step-IsChecking u v h =
    rw (is_verifying-at_work u.state v.at_work, h)
      (record { at_work = v.at_work; left = ground arith; running = step_running u v })

-- The last piece gives the verdict.
step_last :
    (u : OtaUpdater)
    → IsChecking u
    → leb u.image_len (u.verified + chunk_of u) ≡ true
    → (step u).state ≡ verdict u.image u.image_len u.expected_crc
unfolding step
step_last u v h =
    let all : u.verified + chunk_of u ≡ u.image_len = ground (arith, v.left) in
    rw (is_verifying-at_work u.state v.at_work, h, step_running u v, all) refl

step_rest :
    (u : OtaUpdater)
    → IsChecking u
    → ((step u).image ≡ u.image)
      × ((step u).image_len ≡ u.image_len)
      × ((step u).expected_crc ≡ u.expected_crc)
      × ((step u).verified ≡ u.verified + chunk_of u)
unfolding step
step_rest u v = rw (is_verifying-at_work u.state v.at_work) (refl, refl, refl, refl)

-- A check under way comes to the verdict on the whole image, once the pieces cover what is left.
steps-verdict :
    (n : ℕ) (u : OtaUpdater)
    → IsChecking u
    → u.image_len ≤ u.verified + n * chunk_bytes
    → (steps n u).state ≡ verdict u.image u.image_len u.expected_crc
unfolding steps
steps-verdict zero u v h = absurd (omega (arith, v.left))
steps-verdict (suc n) u v h = elim (Bool-cases (leb u.image_len (u.verified + chunk_of u))) [
  | inl e ↦
      let last = step_last u v e in
      ap (λ w. w.state) (steps_ended n (step u) (rw last (verdict_ends _))) ∙ last
  | inr e ↦
      let (image, len, expected, more) = step_rest u v in
      steps-verdict n (step u) (step-IsChecking u v e) (rw (len, more) (ground (arith, v.left)))
      ∙ rw (image, len, expected) refl
]

-- An image of at least one byte that is accepted while no other check is under way is found good
-- exactly when its checksum is the expected one, after the ticks that its pieces of 4096 bytes need.
pub begin-steps-verdict :
    (u : OtaUpdater) (image : List ℕ) (len expected n : ℕ)
    → is_verifying u.state ≡ false
    → 0 < len
    → len ≤ n * chunk_bytes
    → let (u', status) = begin u (some image) len expected in
      (status ≡ ok) × ((steps n u').state ≡ verdict image len expected)
unfolding begin crc16_ccitt
begin-steps-verdict u image len expected n h k l = elim (Bool-cases (len == 0)) [
  | inl e ↦ absurd (ground arith)
  | inr e ↦
      rw (e, h)
        (
          refl,
          steps-verdict n _ (record { at_work = refl; left = k; running = refl }) (omega arith),
        )
]

-- While the check is under way less than all of the image is reported as done, for images whose
-- length in hundredths fits 64 bits.
pub progress_percent-lt :
    (u : OtaUpdater) → IsChecking u → u.image_len * 100 < 2 ^ 64 → progress_percent u < 100
unfolding progress_percent
progress_percent-lt u v h =
    let left = v.left in
    let below : u.verified * 100 / u.image_len < 100 =
      (div-lt_iff_lt-mul (omega arith)).1 (omega arith) in
    ground (arith, below)
